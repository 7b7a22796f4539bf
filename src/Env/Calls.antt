-- ===== src/Env/Calls.antt =====
-- src/stdlib/env_mut.rs and src/stdlib/env_core.rs: the exported functions, each under the lock of the
-- environment from its first read of it. A null pointer is `none`, or the address 0.
use rlibc.Common.{
  ℕ, Bool, true, false, not, ◌&&◌, ◌||◌, Option, none, some, List, [], ◌∷◌, ◌==◌, if◌then◌else◌,
}
use rlibc.Common.Int.{ℤ, pos, negsuc, eqb_ℤ}
use rlibc.Common.Bytes.{Bytes, eqb_bytes}
use rlibc.Errno.{einval}
use rlibc.Env.{Environment, split_entry, contains_name, set_name_value, remove_name, clear}
use rlibc.Env.Host.{Host, contains_byte, is_empty, split_nul, ensure_initialized}
use rlibc.Env.Aliases.{
  Buffers, is_none, lookup_putenv_alias_value, remove_putenv_alias,
  remove_putenv_aliases_for_name_or_entry, rebind_putenv_alias, drop_renamed,
}

-- The environment, the memory that the callers keep, and the calling thread's `errno`.
pub record World : Type 0 where
  pub env : Environment
  pub buffers : Buffers
  pub errno : ℕ

abbrev pub fail_with_errno : ℕ → World → ℤ × World
fail_with_errno errno_value w = (negsuc 0, record w { errno = errno_value })

-- The opposite of `validate_name_bytes`.
abbrev pub invalid_name : Bytes → Bool
invalid_name name_bytes = is_empty name_bytes || contains_byte b'=' name_bytes

abbrev pub read_c_string : Buffers → ℕ → Option Bytes
read_c_string buffers string = if string == 0 then none else some (buffers string)

-- Whether the variable exists, where `overwrite` is 0.
unfoldable pub existed_before : ℤ → Buffers → Bytes → Environment → Bool × Environment
unfolding lookup_putenv_alias_value
existed_before overwrite buffers name_bytes e =
    if not (eqb_ℤ overwrite (pos 0))
    then (false, e)
    else (let (value, looked) = lookup_putenv_alias_value buffers name_bytes e in
        (if is_none value then contains_name looked.entries name_bytes else true, looked))

unfoldable pub setenv : Host → Option Bytes → Option Bytes → ℤ → World → ℤ × World
unfolding existed_before
setenv host none value overwrite w = fail_with_errno einval w
setenv host (some name_bytes) none overwrite w = fail_with_errno einval w
setenv host (some name_bytes) (some value_bytes) overwrite w =
    if invalid_name name_bytes
    then fail_with_errno einval w
    else (let (existed, looked) =
          existed_before overwrite w.buffers name_bytes (ensure_initialized host w.env) in
        if eqb_ℤ overwrite (pos 0) && existed
        then (pos 0, record w { env = looked })
        else (let set = set_name_value name_bytes value_bytes looked in
            (
              pos 0,
              record w {
                env =
                    if not (eqb_ℤ overwrite (pos 0)) || not existed
                    then remove_putenv_alias name_bytes set
                    else set;
              },
            )))

unfoldable pub unsetenv : Host → Option Bytes → World → ℤ × World
unsetenv host none w = fail_with_errno einval w
unsetenv host (some name_bytes) w = if invalid_name name_bytes then fail_with_errno einval w else (
  pos 0,
  record w {
    env = remove_putenv_alias name_bytes (remove_name name_bytes (ensure_initialized host w.env));
  },
)

-- `putenv` of a string with `=`, from its two parts on.
unfoldable pub put_value : ℕ → Bytes → Bytes → World → ℤ × World
unfolding rebind_putenv_alias
put_value string name_bytes value_bytes w =
    if invalid_name name_bytes
    then fail_with_errno einval w
    else (let (renamed_names, bound) =
          rebind_putenv_alias name_bytes string (set_name_value name_bytes value_bytes w.env) in
        (pos 0, record w { env = drop_renamed w.buffers renamed_names bound }))

-- `putenv` of a string without `=`.
unfoldable pub put_removal : ℕ → Bytes → World → ℤ × World
unfolding remove_putenv_aliases_for_name_or_entry
put_removal string bytes w =
    if invalid_name bytes
    then fail_with_errno einval w
    else (let (removed_names, left) =
          remove_putenv_aliases_for_name_or_entry bytes string (remove_name bytes w.env) in
        (pos 0, record w { env = drop_renamed w.buffers removed_names left }))

unfoldable pub putenv : Host → ℕ → World → ℤ × World
putenv host string w = elim (read_c_string w.buffers string) [
  | none ↦ fail_with_errno einval w
  | some bytes ↦
      let started = record w { env = ensure_initialized host w.env } in
      elim (split_entry bytes) [
        | none ↦ put_removal string bytes started
        | some (name_bytes, value_bytes) ↦ put_value string name_bytes value_bytes started
      ]
]

unfoldable pub clearenv : Host → World → ℤ × World
clearenv host w =
    (pos 0, record w { env = record (clear (ensure_initialized host w.env)) { aliases = [] } })

-- The value in the first entry with the name.
unfoldable pub find_value : Bytes → List Bytes → Option Bytes
find_value name_bytes [] = none
find_value name_bytes (entry ∷ l) =
    let rest = find_value name_bytes l in
    elim (split_entry entry) [
      | none ↦ rest
      | some (name, value) ↦ if eqb_bytes name name_bytes then some value else rest
    ]

unfoldable pub lookup_environ_value : Bytes → Environment → Option Bytes
lookup_environ_value name_bytes e = elim e.environ [
  | none ↦ none
  | some entries ↦ find_value name_bytes entries
]

unfoldable pub lookup_proc_environ_value : Host → Bytes → Option Bytes
lookup_proc_environ_value host name_bytes = elim host.proc_environ [
  | none ↦ none
  | some contents ↦ find_value name_bytes (split_nul contents)
]

-- `getenv` when no alias answers.
unfoldable pub look_up : Host → Bytes → Environment → Option Bytes × Environment
look_up host name_bytes e =
    let ready = if is_none e.environ && not e.initialized then ensure_initialized host e else e in
    elim (lookup_environ_value name_bytes ready) [
      | some value ↦ (some value, ready)
      | none ↦ (
        if is_none ready.environ && not ready.initialized
            then lookup_proc_environ_value host name_bytes
            else none,
        ready,
      )
    ]

abbrev pub answer_or : Host → Bytes → Option Bytes → Environment → Option Bytes × Environment
answer_or host name_bytes (some value) e = (some value, e)
answer_or host name_bytes none e = look_up host name_bytes e

unfoldable pub getenv : Host → Option Bytes → World → Option Bytes × World
getenv host none w = (none, w)
getenv host (some name_bytes) w =
    if invalid_name name_bytes
    then (none, w)
    else (let (value, looked) = lookup_putenv_alias_value w.buffers name_bytes w.env in
        let (answer, e) = answer_or host name_bytes value looked in (answer, record w { env = e }))
