-- ===== src/Glob.antt =====
-- src/glob.rs: pathname patterns. A position in a pattern is the rest of the pattern there, and a loop
-- that advances by several bytes goes over them one by one, with the number still to skip.
pub mod Match
pub mod Classes
pub mod Relation
pub mod Literal
pub mod Segments
pub mod Traverse
pub mod Collect
pub mod Errno
pub mod Vector
use rlibc.Common.{ℕ, ◌/◌, ◌%◌, Bool, ◌==◌}

-- `flags` is the number whose bits are those of the `c_int`.
abbrev pub glob_err : ℕ
glob_err = 1

abbrev pub glob_nosort : ℕ
glob_nosort = 4

abbrev pub glob_dooffs : ℕ
glob_dooffs = 8

abbrev pub glob_nocheck : ℕ
glob_nocheck = 16

abbrev pub glob_append : ℕ
glob_append = 32

abbrev pub glob_noescape : ℕ
glob_noescape = 64

abbrev pub glob_nospace : ℕ
glob_nospace = 1

abbrev pub glob_aborted : ℕ
glob_aborted = 2

abbrev pub glob_nomatch : ℕ
glob_nomatch = 3

-- `flags & flag != 0`
unfoldable pub has_flag : ℕ → ℕ → Bool
has_flag flags flag = (flags / flag) % 2 == 1
