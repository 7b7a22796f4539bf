-- ===== src/Env/Started/Dropped.antt =====
-- src/stdlib/env_mut.rs: what `putenv` removes: the variables that the buffer was before.
use rlibc.Common.{
  ◌≡◌, refl, sym, ◌∙◌, ap, subst, true, Option, none, List, [], ◌∷◌, if◌then◌else◌, arith,
}
use rlibc.Common.Bytes.{Bytes, eqb_bytes, eqb_bytes_refl}
use rlibc.Env.{Environment, remove_name}
use rlibc.Env.Aliases.{Buffers, lookup_putenv_alias_value, drop_renamed}
use rlibc.Env.Bindings.{alias_of, contains_name_of}
use rlibc.Env.Bindings.Resolve.{lookup_putenv_alias_lem}
use rlibc.Env.Started.{
  IsStarted, alias_at, owned_at, remove_name-IsStarted, owned_at-remove_name, aliases-remove_name,
  remove_owned_lem,
}

-- Without an alias under any of the names, the loop of `putenv` removes their entries.
pub record IsDropped (names : List Bytes) (e dropped : Environment) : Type 0 where
  pub started : IsStarted dropped
  pub aliases : dropped.aliases ≡ e.aliases
  pub owned :
      (n : Bytes) → owned_at n dropped ≡ (if contains_name_of n names then none else owned_at n e)

abbrev HaveNoAlias : List Bytes → Environment → Type 0
HaveNoAlias names e = (m : Bytes) → contains_name_of m names ≡ true → alias_at m e ≡ none

lookup_nothing :
    (buffers : Buffers) (m : Bytes) (e : Environment)
    → IsStarted e
    → alias_at m e ≡ none
    → lookup_putenv_alias_value buffers m e ≡ (none, e)
lookup_nothing buffers m e s h = ground (arith, lookup_putenv_alias_lem buffers m e s.unique)

drop_one :
    (buffers : Buffers) (m : Bytes) (l : List Bytes) (e : Environment)
    → IsStarted e
    → alias_at m e ≡ none
    → drop_renamed buffers (m ∷ l) e ≡ drop_renamed buffers l (remove_name m e)
unfolding drop_renamed
drop_one buffers m l e s h = rw (lookup_nothing buffers m e s h, remove_owned_lem m e s)

head_listed : (m : Bytes) (l : List Bytes) → contains_name_of m (m ∷ l) ≡ true
unfolding contains_name_of
head_listed m l = ground (arith, eqb_bytes_refl m)

tail_listed :
    (n m : Bytes) (l : List Bytes) → contains_name_of n l ≡ true → contains_name_of n (m ∷ l) ≡ true
unfolding contains_name_of
tail_listed n m l h = ground arith

listed_or :
    (n m : Bytes) (l : List Bytes) (o : Option Bytes)
    → (if contains_name_of n l then none else if eqb_bytes n m then none else o)
      ≡ (if contains_name_of n (m ∷ l) then none else o)
unfolding contains_name_of
listed_or n m l o = ground arith

none_listed : (n : Bytes) (o : Option Bytes) → o ≡ (if contains_name_of n [] then none else o)
unfolding contains_name_of
none_listed n o = refl

drop_none : (buffers : Buffers) (e : Environment) → drop_renamed buffers [] e ≡ e
unfolding drop_renamed
drop_none buffers e = refl

pub drop_renamed_lem :
    (buffers : Buffers) (names : List Bytes) (e : Environment)
    → IsStarted e
    → HaveNoAlias names e
    → IsDropped names e (drop_renamed buffers names e)
drop_renamed_lem buffers [] e s h =
    subst (IsDropped [] e) (sym (drop_none buffers e))
      (record { started = s; aliases = refl; owned = λ n. none_listed n _ })
drop_renamed_lem buffers (m ∷ l) e s h =
    let rest =
      drop_renamed_lem buffers l (remove_name m e) (remove_name-IsStarted m e s)
        (λ n k. ap (alias_of n) (aliases-remove_name m e) ∙ h n (tail_listed n m l k)) in
    subst (IsDropped (m ∷ l) e) (sym (drop_one buffers m l e s (h m (head_listed m l)))) (record {
      started = rest.started;
      aliases = rest.aliases ∙ aliases-remove_name m e;
      owned = λ n.
          rest.owned n
          ∙ ap (λ o. if contains_name_of n l then none else o) (owned_at-remove_name m n e)
          ∙ listed_or n m l _;
    })
