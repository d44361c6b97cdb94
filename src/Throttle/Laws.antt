-- ===== src/Throttle/Laws.antt =====
-- Look-up laws of the throttle's map and the bound on its size.
use rgit.Common.{
  ℕ, suc, ◌+◌, ◌%◌, ◌≤◌, ◌<◌, ◌≡◌, refl, Str, Bool, true, not, [], ◌∷◌, Option, none, some, ltb,
  str_eq, str_eq_iff, str_eq_refl, length, retain, is_some, Bool-cases, inl, inr, ◌≢◌, ◌⊎◌,
  if◌then◌else◌, arith,
}
use rgit.Throttle.{
  Entry, Failures, max_failure_keys, live, get, remove, make_room, bump, record_failure,
}

abbrev pub bumped : Str → ℕ → Option Entry → Entry
bumped key t none = record { key = key; failures = 1; expires = t }
bumped key t (some e) = record e { failures = (e.failures + 1) % 0x1_0000_0000; expires = t }

pub get-bump :
    (key j : Str) (t : ℕ) (m : Failures)
    → get j (bump key t m) ≡ (if str_eq key j then some (bumped key t (get key m)) else get j m)
unfolding get bump
get-bump key j t [] = refl
get-bump key j t (e ∷ m) =
    ground (arith, get-bump key j t m, str_eq_iff e.key key, str_eq_iff e.key j, str_eq_iff key j)

pub get-live-bump :
    (key : Str) (now t : ℕ) (m : Failures)
    → now < t
    → get key (live now (bump key t m)) ≡ some (bumped key t (get key m))
unfolding get bump
get-live-bump key now t [] h = ground (arith, str_eq_refl key)
get-live-bump key now t (e ∷ m) h = elim (Bool-cases (str_eq e.key key)) [
  | inl s ↦ ground arith
  | inr d ↦ ground (arith, get-live-bump key now t m h)
]

length-retain : (p : Entry → Bool) (m : Failures) → length (retain p m) ≤ length m
length-retain p [] = omega arith
length-retain p (e ∷ m) = ground (arith, length-retain p m)

length-bump :
    (key : Str) (t : ℕ) (m : Failures)
    → length (bump key t m) ≡ (if is_some (get key m) then length m else suc (length m))
unfolding bump get
length-bump key t [] = refl
length-bump key t (e ∷ m) = ground (arith, length-bump key t m)

length-remove :
    (key : Str) (m : Failures) → is_some (get key m) ≡ true → length (remove key m) < length m
unfolding get remove
length-remove key [] h = ground arith
length-remove key (e ∷ m) h =
    ground (arith, length-remove key m, length-retain (λ x. not (str_eq x.key key)) m)

pub get-remove :
    (key j : Str) (m : Failures) → get j (remove key m) ≡ (if str_eq key j then none else get j m)
unfolding get remove
get-remove key j [] = ground arith
get-remove key j (e ∷ m) =
    ground (arith, get-remove key j m, str_eq_iff e.key key, str_eq_iff e.key j, str_eq_iff key j)

-- What is documented of `keys().next()`: a map that is not empty has a first key.
abbrev pub IsChoice : (Failures → Option Str) → Type 0
IsChoice victim =
    (m : Failures) → m ≢ [] → (k : Str) × (victim m ≡ some k) × (is_some (get k m) ≡ true)

make_room_cases :
    (victim : Failures → Option Str) (key : Str) (m : Failures)
    → IsChoice victim
    → length m ≤ max_failure_keys
    → (length (make_room victim key m) ≤ max_failure_keys)
      × ((is_some (get key (make_room victim key m)) ≡ true)
          ⊎ (length (make_room victim key m) < max_failure_keys))
make_room_cases victim key [] choice h = ground arith
make_room_cases victim key (e ∷ m) choice h =
    let (k, chosen, present) = choice (e ∷ m) (λ q. cc q) in
    ground (arith, length-remove k (e ∷ m) present)

-- The map never holds more than 10,000 keys.
pub length-record_failure :
    (victim : Failures → Option Str) (now : ℕ) (key : Str) (lockout : ℕ) (m : Failures)
    → IsChoice victim
    → length m ≤ max_failure_keys
    → length (record_failure victim now key lockout m) ≤ max_failure_keys
unfolding record_failure
length-record_failure victim now key lockout m choice h = ground (
  arith,
  make_room_cases victim key (live now m) choice,
  length-retain (λ e. ltb now e.expires) m,
  length-bump key (now + lockout) (make_room victim key (live now m)),
)
