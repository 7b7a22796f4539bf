-- ===== src/Tests/Env.antt =====
-- The theorems on a run of the environment functions.
use rlibc.Common.{◌≡◌, refl, false, none, some, List, [], ◌∷◌, inr}
use rlibc.Common.Int.{pos}
use rlibc.Common.Bytes.{codes}
use rlibc.Env.Host.{Host}
use rlibc.Env.Calls.{World}
use rlibc.Env.Spec.{Call, set, unset, put, get, write, promise, perform, answers}
use rlibc.Env.Started.{IsKept}
use rlibc.Env.Refine.{shown}
use rlibc.Env.Refine.Run.{answers-promise}

abbrev host : Host
host = record { proc_environ = some (codes "A=1"); vars_os = [] }

abbrev before : World
before = record {
  env = record { initialized = false; entries = []; environ = none; aliases = [] };
  buffers = λ a. [];
  errno = 0;
}

-- A buffer that is `put`, changed, kept by `setenv`, renamed by its owner, and so lost.
abbrev calls : List Call
calls =
    get (some (codes "A"))
    ∷ write 8 (codes "K=v")
    ∷ put 8
    ∷ get (some (codes "K"))
    ∷ write 8 (codes "K=w")
    ∷ set (some (codes "K")) (some (codes "x")) (pos 0)
    ∷ get (some (codes "K"))
    ∷ write 8 (codes "Z=w")
    ∷ get (some (codes "K"))
    ∷ set (some (codes "a=b")) (some []) (pos 1)
    ∷ unset (some (codes "A"))
    ∷ get (some (codes "A"))
    ∷ []

before-IsKept : IsKept before.env
before-IsKept = inr (refl, refl)

answers-promise_example :
    answers (perform host) calls before ≡ answers promise calls (shown host before)
answers-promise_example = answers-promise host calls before before-IsKept
