-- ===== src/Lib.antt =====
-- A verification library for rlibc, a C library in Rust.
--
-- Parts. Each exported function stands on its own and meets the others in what they share: the calling
-- thread's `errno`, raw memory, and the state behind the objects of the callers. The model passes such
-- a state in and out as a value.
--   Common     lists and integers over the native numbers, byte strings, sums over threads
--   Errno      src/errno.rs, src/abi/errno.rs: the error numbers; `errno` is an argument and a field of
--              the result of a function that may write it
--   Conv       src/stdlib/conv.rs: `strtol` and its family; Conv.Atoi is src/stdlib/atoi.rs. A string is
--              the list of its bytes before the NUL, a pointer into it an offset, `endptr` a place that
--              may be absent. The four parts of `parse_unsigned_magnitude` are `skip_spaces`,
--              `read_sign`, `resolve_base` and `scan_digits`. Conv.Subject describes the text that the C
--              standard lets a conversion take, and Conv.Total finds it in every string.
--   Pthread    src/pthread.rs: Mutex and Rwlock have the internal operations, under the lock that each
--              state has of its own; Calls the exported functions; System the threads as a relation of
--              atomic steps; Invariant and Moves what every step keeps; Safety what follows from it.
--              A round of a lock call's loop is one step, since `wait_cv.wait` gives the state's lock up;
--              `notify_one` and `notify_all` are steps after the state's lock is given up. Cond has the
--              condition variables: Wait is a wait before and after the thread sleeps, with the mutex,
--              Calls its first half with the pointers of the caller,
--              Timeout the length of a timed wait, System the threads on one wait state with
--              the notifications, Counted and Stolen what follows.
--   Time       src/time.rs: Civil is `civil_from_days` and `days_from_civil`, Tm is `struct tm` and its
--              conversions, Entry `gmtime_r`, `gmtime`, `localtime_r`, `localtime`, `timegm` and `mktime`,
--              Promise and Fields what these return.
--   Memory     src/memory/mod.rs: memory is a function from addresses to bytes
--   Str        src/string/mod.rs: `strlen` and `strnlen` over the same memory
--   Wchar      src/wchar/mod.rs: UTF-8 of one scalar value; Restart is `decode_utf8` over an `mbstate_t`,
--              and Resume what it does with an input in pieces; Calls the exported functions on one
--              character, Strings and Restartable those on strings, a pointer into a string being what
--              is left of it; Roundtrip and Inverse lead from decoding to whole strings
--   Env        src/stdlib/env_mut.rs, src/stdlib/env_core.rs: the state of the environment, Host its first
--              snapshot, with what the host answers as a parameter, Aliases the buffers of `putenv`, the
--              memory of the callers being a function from addresses to strings, Calls the exported
--              functions; Spec is the map from names to variables that these are measured by, and
--              Entries, Bindings, Started, View, Lookup and Refine lead there.
--   Glob       src/glob.rs: Match is a name against a segment, Segments the cutting of a pattern,
--              Traverse and Collect `collect_matches`, Vector `glob` and `globfree`; the file system is a
--              parameter. Classes and Relation say what a segment describes, Literal what one without
--              pattern characters does, Reach which candidates a traversal leaves, Held what the
--              structure of the caller holds, Errno what a traversal leaves in `errno`.
--   Ctype      src/ctype.rs: character classes and case mapping
--   Tests      runs on concrete inputs
--
-- Numbers. An unsigned machine integer is a number, a signed one or an `i128` an integer; where the
-- source wraps around, saturates or checks, so does the model. An `i128` of src/time.rs and a `u128` of
-- src/stdlib/conv.rs hold every value that occurs, since the arguments have at most 64 bits.
--
-- Loops. A loop with a bound runs by recursion on the rounds left. `strlen` has none of its own: it
-- takes fuel, and one more round than the string has bytes is enough. The threads' loops are steps. A
-- loop over a pattern goes byte by byte, with the number of bytes still to skip.
--
-- Not modelled: the threads on a condition variable and its mutex at once, the creation of threads, `strftime`, the clocks, allocation
-- and stdio, each of them a part for itself; and
-- the wrappers of system calls and of host functions, whose work is done elsewhere. A caller's
-- pointers are valid, as the functions require, so no address wraps around.
pub mod Common
pub mod Errno
pub mod Conv
pub mod Pthread
pub mod Time
pub mod Memory
pub mod Wchar
pub mod Str
pub mod Ctype
pub mod Tests
pub mod Env
pub mod Glob
