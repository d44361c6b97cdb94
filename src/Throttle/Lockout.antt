-- ===== src/Throttle/Lockout.antt =====
-- The lockout that a run of failures on one key causes.
use rgit.Common.{
  ℕ, suc, ◌+◌, ◌≤◌, ◌<◌, ◌≡◌, refl, Str, false, List, [], ◌∷◌, Option, none, some, leb, str_eq,
  str_eq_refl, length, arith, Option-cases, inl, inr, if◌then◌else◌,
}
use rgit.Throttle.{
  Entry, Failures, live, get, check_lockout, record_failure, make_room, clear_failures, remove,
}
use rgit.Throttle.Laws.{bumped, get-bump, get-remove}

module _ (victim : Failures → Option Str) (key : Str) (lockout : ℕ) where
  -- Failures at the given times, one after the other.
  abbrev pub fail_at : List ℕ → Failures → Failures
  fail_at [] m = m
  fail_at (t ∷ ts) m = fail_at ts (record_failure victim t key lockout m)

-- Each time is within the lockout that the one before it started.
abbrev pub Close : ℕ → ℕ → List ℕ → Type 0
Close lockout t [] = Unit
Close lockout t (u ∷ us) = (t ≤ u) × (u < t + lockout) × Close lockout u us

abbrev pub last : ℕ → List ℕ → ℕ
last t [] = t
last t (u ∷ us) = last u us

get-live-retained :
    (key : Str) (now : ℕ) (m : Failures) (e : Entry)
    → get key m ≡ some e
    → now < e.expires
    → get key (live now m) ≡ some e
unfolding get
get-live-retained key now [] e h k = ground arith
get-live-retained key now (x ∷ m) e h k = ground (arith, get-live-retained key now m e)

make_room-present :
    (victim : Failures → Option Str) (key : Str) (m : Failures) (e : Entry)
    → get key m ≡ some e
    → get key (make_room victim key m) ≡ some e
make_room-present victim key m e h = ground arith

make_room-absent :
    (victim : Failures → Option Str) (key : Str) (m : Failures)
    → get key m ≡ none
    → get key (make_room victim key m) ≡ none
make_room-absent victim key m h = elim (Option-cases (victim m)) [
  | inl n ↦ ground arith
  | inr (k, s) ↦ ground (arith, get-remove k key m)
]

live-remove :
    (now : ℕ) (key : Str) (m : Failures) → live now (remove key m) ≡ remove key (live now m)
unfolding remove
live-remove now key [] = refl
live-remove now key (e ∷ m) = ground (arith, live-remove now key m)

module _ (victim : Failures → Option Str) (key : Str) (lockout : ℕ) where
  again :
      (t u : ℕ) (m : Failures) (e : Entry)
      → get key m ≡ some e
      → e.expires ≡ t + lockout
      → u < t + lockout
      → get key (record_failure victim u key lockout m) ≡ some (bumped key (u + lockout) (some e))
  unfolding record_failure
  again t u m e h s k = ground (
    arith,
    get-live-retained key u m e h,
    make_room-present victim key (live u m) e,
    get-bump key key (u + lockout) (make_room victim key (live u m)),
    str_eq_refl key,
  )

  fail_at-get :
      (ts : List ℕ) (t : ℕ) (m : Failures) (e : Entry)
      → get key m ≡ some e
      → e.expires ≡ t + lockout
      → e.failures + length ts < 0x1_0000_0000
      → Close lockout t ts
      → (e' : Entry) × (get key (fail_at victim key lockout ts m) ≡ some e')
        × (e'.failures ≡ e.failures + length ts)
        × (e'.expires ≡ last t ts + lockout)
  fail_at-get [] t m e h s b c = (e, h, omega arith, s)
  fail_at-get (u ∷ us) t m e h s b c =
      let (e', h', n, s') =
        fail_at-get us u (record_failure victim u key lockout m) (bumped key (u + lockout) (some e))
          (again t u m e h s c.1) refl (ground arith) c.2 in
      (e', h', ground arith, s')

  first :
      (t : ℕ) (m : Failures)
      → get key (live t m) ≡ none
      → get key (record_failure victim t key lockout m) ≡ some (bumped key (t + lockout) none)
  unfolding record_failure
  first t m h = ground (
    arith,
    make_room-absent victim key (live t m),
    get-bump key key (t + lockout) (make_room victim key (live t m)),
    str_eq_refl key,
  )

  -- A key without a live entry fails at `t` and then at the times `ts`, each before the lockout of
  -- the one before ends. Until the last lockout ends, the key is locked exactly if these are at
  -- least `max` failures (fewer than 2^32 of them, the count's type).
  pub check_lockout-fail_at :
      (max now t : ℕ) (ts : List ℕ) (m : Failures)
      → get key (live t m) ≡ none
      → Close lockout t ts
      → suc (length ts) < 0x1_0000_0000
      → now < last t ts + lockout
      → (check_lockout now key max (fail_at victim key lockout (t ∷ ts) m)).0
        ≡ leb max (suc (length ts))
  unfolding check_lockout
  check_lockout-fail_at max now t ts m h c b k =
      let (e, got, n, x) =
        fail_at-get ts t (record_failure victim t key lockout m) (bumped key (t + lockout) none)
          (first t m h) refl (omega arith) c in
      let kept : get key (live now (fail_at victim key lockout (t ∷ ts) m)) ≡ some e =
        get-live-retained key now (fail_at victim key lockout (t ∷ ts) m) e got (omega arith) in
      ground arith

-- A success unlocks its key and no other: another key's answer is as before.
pub check_lockout-clear :
    (now : ℕ) (key j : Str) (max : ℕ) (m : Failures)
    → (check_lockout now j max (clear_failures key m)).0
      ≡ (if str_eq key j then false else (check_lockout now j max m).0)
unfolding check_lockout clear_failures
check_lockout-clear now key j max m =
    rw (live-remove now key m) (rw (get-remove key j (live now m)) (ground arith))
