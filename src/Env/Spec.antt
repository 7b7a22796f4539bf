-- ===== src/Env/Spec.antt =====
-- src/stdlib/env_mut.rs and src/stdlib/env_core.rs: what the documentation of the exported functions
-- promises, without the entries and the list of aliases: a map from names to variables.
use rlibc.Common.{ℕ, not, ◌&&◌, Option, none, some, List, [], ◌∷◌, ◌==◌, if◌then◌else◌}
use rlibc.Common.Int.{ℤ, pos, negsuc, eqb_ℤ}
use rlibc.Common.Bytes.{Bytes, eqb_bytes}
use rlibc.Errno.{einval}
use rlibc.Env.{split_entry}
use rlibc.Env.Host.{Host}
use rlibc.Env.Aliases.{Buffers, is_none, parse_alias_value_ptr}
use rlibc.Env.Calls.{World, invalid_name, read_c_string, setenv, unsetenv, putenv, clearenv, getenv}

-- A variable has a value of its own, or is whatever the buffer that was given to `putenv` says.
pub data Variable : Type 0 where
  owned : Bytes → Variable
  aliased : ℕ → Variable

abbrev pub Variables : Type 0
Variables = Bytes → Option Variable

pub record Promised : Type 0 where
  pub variables : Variables
  pub buffers : Buffers
  pub errno : ℕ

abbrev pub bind : Bytes → Option Variable → Variables → Variables
bind name_bytes v m = λ n. if eqb_bytes n name_bytes then v else m n

abbrev pub unless_buffer : ℕ → Option Variable → Option Variable
unless_buffer string none = none
unless_buffer string (some (owned v)) = some (owned v)
unless_buffer string (some (aliased a)) = if a == string then none else some (aliased a)

-- A buffer is one variable at a time.
abbrev pub forget_buffer : ℕ → Variables → Variables
forget_buffer string m = λ n. unless_buffer string (m n)

-- A variable whose buffer does not begin with its name any more is gone.
abbrev pub value_of : Buffers → Bytes → Option Variable → Option Bytes
value_of buffers name_bytes none = none
value_of buffers name_bytes (some (owned v)) = some v
value_of buffers name_bytes (some (aliased a)) = parse_alias_value_ptr buffers a name_bytes

abbrev pub settle : Buffers → Bytes → Variables → Variables
settle buffers name_bytes m =
    if is_none (value_of buffers name_bytes (m name_bytes)) then bind name_bytes none m else m

-- What a program does: calls, and writes to its own memory.
pub data Call : Type 0 where
  set : Option Bytes → Option Bytes → ℤ → Call
  unset : Option Bytes → Call
  put : ℕ → Call
  clear_all : Call
  get : Option Bytes → Call
  write : ℕ → Bytes → Call

pub data Answer : Type 0 where
  code : ℤ → Answer
  value : Option Bytes → Answer
  no_answer : Answer

abbrev pub store : ℕ → Bytes → Buffers → Buffers
store string bytes buffers = λ a. if a == string then bytes else buffers a

abbrev pub refused : Promised → Answer × Promised
refused p = (code (negsuc 0), record p { errno = einval })

abbrev pub accepted : Variables → Promised → Answer × Promised
accepted m p = (code (pos 0), record p { variables = m })

unfoldable pub promise_set : Bytes → Bytes → ℤ → Promised → Answer × Promised
promise_set name_bytes value_bytes overwrite p =
    if invalid_name name_bytes
    then refused p
    else if eqb_ℤ overwrite (pos 0)
        && not (is_none (value_of p.buffers name_bytes (p.variables name_bytes)))
    then accepted p.variables p
    else accepted (bind name_bytes (some (owned value_bytes)) p.variables) p

unfoldable pub promise_put : ℕ → Bytes → Promised → Answer × Promised
promise_put string bytes p = elim (split_entry bytes) [
  | none ↦
      if invalid_name bytes
      then refused p
      else accepted (bind bytes none (forget_buffer string p.variables)) p
  | some (name_bytes, _) ↦
      if invalid_name name_bytes
      then refused p
      else accepted (bind name_bytes (some (aliased string)) (forget_buffer string p.variables)) p
]

unfoldable pub promise : Call → Promised → Answer × Promised
promise (set none v overwrite) p = refused p
promise (set (some name_bytes) none overwrite) p = refused p
promise (set (some name_bytes) (some value_bytes) overwrite) p =
    promise_set name_bytes value_bytes overwrite p
promise (unset none) p = refused p
promise (unset (some name_bytes)) p =
    if invalid_name name_bytes then refused p else accepted (bind name_bytes none p.variables) p
promise (put string) p = elim (read_c_string p.buffers string) [
  | none ↦ refused p
  | some bytes ↦ promise_put string bytes p
]
promise clear_all p = accepted (λ n. none) p
promise (get none) p = (value none, p)
promise (get (some name_bytes)) p = if invalid_name name_bytes then (value none, p) else (
  value (value_of p.buffers name_bytes (p.variables name_bytes)),
  record p { variables = settle p.buffers name_bytes p.variables },
)
promise (write string bytes) p = (no_answer, record p { buffers = store string bytes p.buffers })

abbrev pub status : ℤ × World → Answer × World
status (c, w) = (code c, w)

abbrev pub looked_up : Option Bytes × World → Answer × World
looked_up (v, w) = (value v, w)

-- The same calls of the modelled functions.
unfoldable pub perform : Host → Call → World → Answer × World
unfolding setenv unsetenv putenv clearenv getenv
perform host (set n v overwrite) w = status (setenv host n v overwrite w)
perform host (unset n) w = status (unsetenv host n w)
perform host (put string) w = status (putenv host string w)
perform host clear_all w = status (clearenv host w)
perform host (get n) w = looked_up (getenv host n w)
perform host (write string bytes) w =
    (no_answer, record w { buffers = store string bytes w.buffers })

unfoldable pub answers {ℓ} : {S : Type ℓ} → (Call → S → Answer × S) → List Call → S → List Answer
answers step [] s = []
answers step (c ∷ l) s = let (a, t) = step c s in a ∷ answers step l t
