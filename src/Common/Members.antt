-- ===== src/Common/Members.antt =====
-- Membership in a list, kept as data so that a proof can take it apart.
use mathlib.Core.Path.{◌≡◌, refl, sym, ap, subst}
use mathlib.Core.Logic.{◌⊎◌, inl, inr}
use mathlib.Core.Bool.{Bool, true, false}
use mathlib.Core.List.{List, [], ◌∷◌, ◌++◌, map}
use native.Mathlib.Omega.{arith}
use rgit.Common.Tests.{Bool-cases}
use rgit.Common.Lists.{retain, any, find, All, take, drop}
use Prim.Native.Nat.{ℕ, zero, suc}
use mathlib.Core.Option.{some}
pub use mathlib.Core.List.{Memᴰ}

module _ {ℓ} {A : Type ℓ} {a : A} where
  pub Mem-append_cases : (xs ys : List A) → Memᴰ a (xs ++ ys) → Memᴰ a xs ⊎ Memᴰ a ys
  Mem-append_cases [] ys m = inr m
  Mem-append_cases (x ∷ xs) ys (Memᴰ.head e) = inl (Memᴰ.head e)
  Mem-append_cases (x ∷ xs) ys (Memᴰ.tail m) = elim (Mem-append_cases xs ys m) [
    | inl k ↦ inl (Memᴰ.tail k)
    | inr k ↦ inr k
  ]

  pub Mem-append_left : (xs ys : List A) → Memᴰ a xs → Memᴰ a (xs ++ ys)
  Mem-append_left [] ys m = elim m [ ]
  Mem-append_left (x ∷ xs) ys (Memᴰ.head e) = Memᴰ.head e
  Mem-append_left (x ∷ xs) ys (Memᴰ.tail m) = Memᴰ.tail (Mem-append_left xs ys m)

  pub Mem-append_right : (xs ys : List A) → Memᴰ a ys → Memᴰ a (xs ++ ys)
  Mem-append_right [] ys m = m
  Mem-append_right (x ∷ xs) ys m = Memᴰ.tail (Mem-append_right xs ys m)

module _ {ℓ} {A : Type ℓ} (p : A → Bool) where
  pub Mem-retain : (xs : List A) (a : A) → Memᴰ a xs → p a ≡ true → Memᴰ a (retain p xs)
  Mem-retain [] a m h = elim m [ ]
  Mem-retain (x ∷ xs) a (Memᴰ.head e) h = rw (← e) (rw h (Memᴰ.head refl))
  Mem-retain (x ∷ xs) a (Memᴰ.tail m) h = elim (Bool-cases (p x)) [
    | inl t ↦ rw t (Memᴰ.tail (Mem-retain xs a m h))
    | inr f ↦ rw f (Mem-retain xs a m h)
  ]

  pub retain-Mem : (xs : List A) (a : A) → Memᴰ a (retain p xs) → Memᴰ a xs × (p a ≡ true)
  retain-Mem [] a m = elim m [ ]
  retain-Mem (x ∷ xs) a m = elim (Bool-cases (p x)) [
    | inl t ↦ kept t (retain-Mem xs a) (rw t at m)
    | inr f ↦ let (k, h) = retain-Mem xs a (rw f at m) in (Memᴰ.tail k, h)
  ]
    where
      kept :
          p x ≡ true
          → (Memᴰ a (retain p xs) → Memᴰ a xs × (p a ≡ true))
          → Memᴰ a (x ∷ retain p xs)
          → Memᴰ a (x ∷ xs) × (p a ≡ true)
      kept t ih (Memᴰ.head e) = (Memᴰ.head e, rw e t)
      kept t ih (Memᴰ.tail k) = let (k', h) = ih k in (Memᴰ.tail k', h)

  pub any-of_Mem : (xs : List A) (a : A) → Memᴰ a xs → p a ≡ true → any p xs ≡ true
  any-of_Mem [] a m h = elim m [ ]
  any-of_Mem (x ∷ xs) a (Memᴰ.head e) h = rw (← e) (rw h)
  any-of_Mem (x ∷ xs) a (Memᴰ.tail m) h = ground (arith, any-of_Mem xs a m h)

  pub Mem-of_any : (xs : List A) → any p xs ≡ true → (a : A) × Memᴰ a xs × (p a ≡ true)
  Mem-of_any [] h = ground arith
  Mem-of_any (x ∷ xs) h = elim (Bool-cases (p x)) [
    | inl t ↦ (x, Memᴰ.head refl, t)
    | inr f ↦ let (a, m, t) = Mem-of_any xs (rw f at h) in (a, Memᴰ.tail m, t)
  ]

module _ {ℓ κ} {A : Type ℓ} {B : Type κ} (f : A → B) where
  pub Mem-map : (xs : List A) (a : A) → Memᴰ a xs → Memᴰ (f a) (map f xs)
  Mem-map [] a m = elim m [ ]
  Mem-map (x ∷ xs) a (Memᴰ.head e) = Memᴰ.head (ap f e)
  Mem-map (x ∷ xs) a (Memᴰ.tail m) = Memᴰ.tail (Mem-map xs a m)

  pub map-Mem : (xs : List A) (b : B) → Memᴰ b (map f xs) → (a : A) × Memᴰ a xs × (b ≡ f a)
  map-Mem [] b m = elim m [ ]
  map-Mem (x ∷ xs) b (Memᴰ.head e) = (x, Memᴰ.head refl, e)
  map-Mem (x ∷ xs) b (Memᴰ.tail m) = let (a, k, e) = map-Mem xs b m in (a, Memᴰ.tail k, e)

module _ {ℓ κ} {A : Type ℓ} (P : A → Type κ) where
  pub All-Mem : (xs : List A) (a : A) → All P xs → Memᴰ a xs → P a
  All-Mem [] a h m = elim m [ ]
  All-Mem (x ∷ xs) a h (Memᴰ.head e) = subst P (sym e) h.0
  All-Mem (x ∷ xs) a h (Memᴰ.tail m) = All-Mem xs a h.1 m

-- A column of the rows that pass a test: SELECT f FROM xs WHERE p.
module _ {ℓ κ} {A : Type ℓ} {B : Type κ} (p : A → Bool) (f : A → B) (rows : List A) where
  pub selected-Mem :
      (b : B) → Memᴰ b (map f (retain p rows)) → (a : A) × Memᴰ a rows × (p a ≡ true) × (b ≡ f a)
  selected-Mem b m =
      let (a, k, e) = map-Mem f (retain p rows) b m in
      let (k', t) = retain-Mem p rows a k in (a, k', t, e)

  pub Mem-selected : (a : A) → Memᴰ a rows → p a ≡ true → Memᴰ (f a) (map f (retain p rows))
  Mem-selected a m t = Mem-map f (retain p rows) a (Mem-retain p rows a m t)

pub find-Mem {ℓ} :
    {A : Type ℓ} (p : A → Bool) (xs : List A) (a : A)
    → find p xs ≡ some a
    → Memᴰ a xs × (p a ≡ true)
find-Mem p [] a h = ground arith
find-Mem p (x ∷ xs) a h = elim (Bool-cases (p x)) [
  | inl t ↦ (Memᴰ.head (ground arith), ground arith)
  | inr f ↦ let (m, t) = find-Mem p xs a (ground arith) in (Memᴰ.tail m, t)
]

module _ {ℓ} {A : Type ℓ} (p : A → Bool) where
  pub any-false : (xs : List A) (a : A) → any p xs ≡ false → Memᴰ a xs → p a ≡ false
  any-false [] a h m = elim m [ ]
  any-false (x ∷ xs) a h (Memᴰ.head e) = rw e (ground arith)
  any-false (x ∷ xs) a h (Memᴰ.tail m) = any-false xs a (ground arith) m

module _ {ℓ} {A : Type ℓ} where
  pub take-Mem : (n : ℕ) (xs : List A) (a : A) → Memᴰ a (take n xs) → Memᴰ a xs
  take-Mem zero xs a m = elim m [ ]
  take-Mem (suc n) [] a m = elim m [ ]
  take-Mem (suc n) (x ∷ xs) a (Memᴰ.head e) = Memᴰ.head e
  take-Mem (suc n) (x ∷ xs) a (Memᴰ.tail m) = Memᴰ.tail (take-Mem n xs a m)

  pub drop-Mem : (n : ℕ) (xs : List A) (a : A) → Memᴰ a (drop n xs) → Memᴰ a xs
  drop-Mem zero xs a m = m
  drop-Mem (suc n) [] a m = elim m [ ]
  drop-Mem (suc n) (x ∷ xs) a m = Memᴰ.tail (drop-Mem n xs a m)
