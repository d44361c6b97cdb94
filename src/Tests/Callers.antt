-- ===== src/Tests/Callers.antt =====
-- Callers, their tokens and sessions, and the throttle.
use rgit.Common.{str_eq_refl, Str, text, ◌≡◌, refl, none, [], ◌∷◌, leb, arith}
use rgit.Store.{World}
use rgit.Throttle.{check_lockout, get}
use rgit.Throttle.Laws.{IsChoice}
use rgit.Throttle.Lockout.{fail_at, check_lockout-fail_at}
use rgit.Auth.Token.{create_session, destroy_session}
use rgit.Tests.Data.{world, oldest}

abbrev digest : Str → Str
digest s = s

abbrev signed_in : World
signed_in = (create_session digest 2 24 none none world).1

abbrev signed_out : World
signed_out = (destroy_session digest (text "secret") signed_in).1

abbrev asked : World
asked = record world { calls = 1 }

abbrev key : Str
key = text "login"

check_lockout-fail_at_example :
    (check_lockout 130 key 3 (fail_at oldest key 60 (100 ∷ 110 ∷ 120 ∷ []) [])).0 ≡ leb 3 3
unfolding get
check_lockout-fail_at_example =
    check_lockout-fail_at oldest key 60 3 130 100 (110 ∷ 120 ∷ []) [] refl
      (omega arith, omega arith, (omega arith, omega arith, tt)) (omega arith) (omega arith)

oldest-IsChoice : IsChoice oldest
unfolding get
oldest-IsChoice [] h = absurd (h refl)
oldest-IsChoice (e ∷ m) h = (e.key, refl, ground (arith, str_eq_refl e.key))
