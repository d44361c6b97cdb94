-- ===== src/Tables/Keys.antt =====
-- Primary keys: rows with distinct ids, and the fresh id of a new row.
use rgit.Common.{
  ℕ, ◌<◌, ◌≡◌, refl, ap, Bool, true, false, find, some, ◌==◌, List, [], ◌∷◌, any, retain, map,
  arith, Bool-cases, inl, inr, Memᴰ, any-false,
}
use rgit.Tables.Groups.{next_id}

module _ {ℓ} {A : Type ℓ} (id : A → ℕ) where
  abbrev pub has_id : ℕ → List A → Bool
  has_id k xs = any (λ x. id x == k) xs

  abbrev pub Distinct : List A → Type 0
  Distinct [] = Unit
  Distinct (x ∷ xs) = (has_id (id x) xs ≡ false) × Distinct xs

  -- A new row's id is above all others.
  pub lt-next_id : (xs : List A) (x : A) → Memᴰ x xs → id x < next_id id xs
  lt-next_id [] x m = elim m [ ]
  lt-next_id (y ∷ xs) x (Memᴰ.head e) = rw e (ground arith)
  lt-next_id (y ∷ xs) x (Memᴰ.tail m) = ground (arith, lt-next_id xs x m)

  not-has_id : (k : ℕ) (xs : List A) → ((x : A) → Memᴰ x xs → id x < k) → has_id k xs ≡ false
  not-has_id k [] h = refl
  not-has_id k (x ∷ xs) h =
      ground (arith, h x (Memᴰ.head refl), not-has_id k xs (λ y m. h y (Memᴰ.tail m)))

  pub fresh-next_id : (xs : List A) → has_id (next_id id xs) xs ≡ false
  fresh-next_id xs = not-has_id (next_id id xs) xs (lt-next_id xs)

  has_id-retain :
      (p : A → Bool) (k : ℕ) (xs : List A) → has_id k xs ≡ false → has_id k (retain p xs) ≡ false
  has_id-retain p k [] h = refl
  has_id-retain p k (x ∷ xs) h = ground (arith, has_id-retain p k xs)

  pub Distinct-retain : (p : A → Bool) (xs : List A) → Distinct xs → Distinct (retain p xs)
  Distinct-retain p [] h = tt
  Distinct-retain p (x ∷ xs) h = elim (Bool-cases (p x)) [
    | inl t ↦ rw t (has_id-retain p (id x) xs h.0, Distinct-retain p xs h.1)
    | inr f ↦ rw f (Distinct-retain p xs h.1)
  ]

  has_id-map :
      (f : A → A)
      → ((x : A) → id (f x) ≡ id x)
      → (k : ℕ) (xs : List A) → has_id k (map f xs) ≡ has_id k xs
  has_id-map f h k [] = refl
  has_id-map f h k (x ∷ xs) = ground (arith, h x, has_id-map f h k xs)

  pub Distinct-map :
      (f : A → A) → ((x : A) → id (f x) ≡ id x) → (xs : List A) → Distinct xs → Distinct (map f xs)
  Distinct-map f h [] d = tt
  Distinct-map f h (x ∷ xs) d =
      (ground (arith, h x, has_id-map f h (id x) xs, d.0), Distinct-map f h xs d.1)

  -- Two rows with one id are one row.
  pub Distinct-eq :
      (xs : List A) (x y : A) → Distinct xs → Memᴰ x xs → Memᴰ y xs → id x ≡ id y → x ≡ y
  Distinct-eq [] x y d m n e = elim m [ ]
  Distinct-eq (z ∷ xs) x y d (Memᴰ.head p) (Memᴰ.head q) e = ground arith
  Distinct-eq (z ∷ xs) x y d (Memᴰ.head p) (Memᴰ.tail n) e =
      absurd (ground (arith, any-false _ xs y d.0 n))
  Distinct-eq (z ∷ xs) x y d (Memᴰ.tail m) (Memᴰ.head q) e =
      absurd (ground (arith, any-false _ xs x d.0 m))
  Distinct-eq (z ∷ xs) x y d (Memᴰ.tail m) (Memᴰ.tail n) e = Distinct-eq xs x y d.1 m n e

  -- The one row that a test accepts, where the test fixes the key.
  pub find_unique :
      (p : A → Bool) (xs : List A) (x : A)
      → Distinct xs
      → Memᴰ x xs
      → p x ≡ true
      → ((y : A) → p y ≡ true → id y ≡ id x)
      → find p xs ≡ some x
  find_unique p [] x d m t k = elim m [ ]
  find_unique p (y ∷ xs) x d m t k = elim (Bool-cases (p y)) [
    | inl s ↦
        let e : y ≡ x = Distinct-eq (y ∷ xs) y x d (Memᴰ.head refl) m (k y s) in rw s (ap some e)
    | inr f ↦ rw f (elim m [
      | Memᴰ.head e ↦ absurd (ground arith)
      | Memᴰ.tail n ↦ find_unique p xs x d.1 n t k
    ])
  ]
