-- ===== src/Env/Lookup.antt =====
-- src/stdlib/env_core.rs: what `getenv` finds once no alias has answered.
use rlibc.Common.{◌≡◌, inr, false, not, ◌&&◌, [], if◌then◌else◌, arith}
use rlibc.Common.Bytes.{Bytes}
use rlibc.Env.{Environment, publish}
use rlibc.Env.Host.{Host, ensure_initialized}
use rlibc.Env.Aliases.{is_none}
use rlibc.Env.Calls.{find_value, lookup_environ_value, look_up}
use rlibc.Env.Started.{IsStarted, owned_at, ensure_initialized-IsStarted}

-- `getenv` never comes to read /proc/self/environ itself: the snapshot is taken before.
pub look_up_lem :
    (host : Host) (n : Bytes) (e : Environment)
    → (let ready =
          if is_none e.environ && not e.initialized then ensure_initialized host e else e in
        look_up host n e ≡ (lookup_environ_value n ready, ready))
unfolding look_up ensure_initialized publish
look_up_lem host n e = ground arith

lookup-published :
    (n : Bytes) (e : Environment) → IsStarted e → lookup_environ_value n e ≡ owned_at n e
unfolding lookup_environ_value find_value publish
lookup-published n e s = ground (arith, s.published)

pub look_up-IsStarted :
    (host : Host) (n : Bytes) (e : Environment) → IsStarted e → look_up host n e ≡ (owned_at n e, e)
look_up-IsStarted host n e s =
    ground (arith, look_up_lem host n e, lookup-published n e s, s.initialized)

-- Before the snapshot, the entries that `environ` points at are those that it will hold.
lookup_before :
    (host : Host) (n : Bytes) (e : Environment)
    → e.initialized ≡ false
    → is_none e.environ ≡ false
    → lookup_environ_value n e ≡ owned_at n (ensure_initialized host e)
unfolding lookup_environ_value ensure_initialized publish
lookup_before host n e i h = ground arith

pub look_up_first :
    (host : Host) (n : Bytes) (e : Environment)
    → e.initialized ≡ false
    → e.aliases ≡ []
    → look_up host n e ≡ (
      owned_at n (ensure_initialized host e),
      if is_none e.environ then ensure_initialized host e else e,
    )
look_up_first host n e i a = ground (
  arith,
  look_up_lem host n e,
  lookup_before host n e i,
  lookup-published n (ensure_initialized host e) (ensure_initialized-IsStarted host e (inr (i, a))),
)
