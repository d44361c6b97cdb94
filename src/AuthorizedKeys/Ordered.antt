-- ===== src/AuthorizedKeys/Ordered.antt =====
-- The order of the keys keeps the rows, and their ids distinct.
use rgit.Common.{
  ℕ, ◌≡◌, refl, sym, ap, ◌∙◌, subst, false, ◌==◌, ◌||◌, List, [], ◌∷◌, ◌⊎◌, Memᴰ, arith, ltb,
  Bool-cases, inl, inr,
}
use rgit.Models.{SshKey}
use rgit.Tables.Keys.{has_id, Distinct}
use rgit.AuthorizedKeys.{insert_key, by_id}

-- A row goes in front of another, or behind it.
insert_key-cases :
    (k l : SshKey) (ls : List SshKey)
    → (insert_key k (l ∷ ls) ≡ l ∷ insert_key k ls) ⊎ (insert_key k (l ∷ ls) ≡ k ∷ l ∷ ls)
insert_key-cases k l ls = elim (Bool-cases (ltb l.id k.id)) [
  | inl t ↦ inl (rw t refl)
  | inr f ↦ inr (rw f refl)
]

insert_key-Mem : (k a : SshKey) (ks : List SshKey) → Memᴰ a (insert_key k ks) → Memᴰ a (k ∷ ks)
insert_key-Mem k a [] m = m
insert_key-Mem k a (l ∷ ls) m = elim (insert_key-cases k l ls) [
  | inl e ↦ elim (subst (λ xs. Memᴰ a xs) e m) [
    | Memᴰ.head h ↦ Memᴰ.tail (Memᴰ.head h)
    | Memᴰ.tail n ↦ elim (insert_key-Mem k a ls n) [
      | Memᴰ.head h ↦ Memᴰ.head h
      | Memᴰ.tail o ↦ Memᴰ.tail (Memᴰ.tail o)
    ]
  ]
  | inr e ↦ subst (λ xs. Memᴰ a xs) e m
]

Mem-insert_key : (k a : SshKey) (ks : List SshKey) → Memᴰ a (k ∷ ks) → Memᴰ a (insert_key k ks)
Mem-insert_key k a [] m = m
Mem-insert_key k a (l ∷ ls) m = elim (insert_key-cases k l ls) [
  | inl e ↦
      subst (λ xs. Memᴰ a xs) (sym e)
        (elim m [
          | Memᴰ.head h ↦ Memᴰ.tail (Mem-insert_key k a ls (Memᴰ.head h))
          | Memᴰ.tail (Memᴰ.head h) ↦ Memᴰ.head h
          | Memᴰ.tail (Memᴰ.tail n) ↦ Memᴰ.tail (Mem-insert_key k a ls (Memᴰ.tail n))
        ])
  | inr e ↦ subst (λ xs. Memᴰ a xs) (sym e) m
]

pub by_id-Mem : (a : SshKey) (ks : List SshKey) → Memᴰ a (by_id ks) → Memᴰ a ks
by_id-Mem a [] m = m
by_id-Mem a (k ∷ ks) m = elim (insert_key-Mem k a (by_id ks) m) [
  | Memᴰ.head h ↦ Memᴰ.head h
  | Memᴰ.tail n ↦ Memᴰ.tail (by_id-Mem a ks n)
]

pub Mem-by_id : (a : SshKey) (ks : List SshKey) → Memᴰ a ks → Memᴰ a (by_id ks)
Mem-by_id a [] m = m
Mem-by_id a (k ∷ ks) m =
    Mem-insert_key k a (by_id ks)
      (elim m [ Memᴰ.head h ↦ Memᴰ.head h | Memᴰ.tail n ↦ Memᴰ.tail (Mem-by_id a ks n) ])

-- The order of the rows keeps their ids distinct.
has_id-insert_key :
    (n : ℕ) (k : SshKey) (ks : List SshKey)
    → has_id (λ (r : SshKey). r.id) n (insert_key k ks) ≡ has_id (λ (r : SshKey). r.id) n (k ∷ ks)
has_id-insert_key n k [] = refl
has_id-insert_key n k (l ∷ ls) = elim (insert_key-cases k l ls) [
  | inl e ↦ rw e (ground (arith, has_id-insert_key n k ls))
  | inr e ↦ rw e refl
]

Distinct-insert_key :
    (k : SshKey) (ks : List SshKey)
    → Distinct (λ (r : SshKey). r.id) (k ∷ ks)
    → Distinct (λ (r : SshKey). r.id) (insert_key k ks)
Distinct-insert_key k [] d = d
Distinct-insert_key k (l ∷ ls) d = elim (insert_key-cases k l ls) [
  | inl e ↦
      let away : has_id (λ (r : SshKey). r.id) l.id (insert_key k ls) ≡ false =
        has_id-insert_key l.id k ls ∙ ground arith in
      subst (Distinct (λ (r : SshKey). r.id)) (sym e)
        (away, Distinct-insert_key k ls (ground arith, d.1.1))
  | inr e ↦ subst (Distinct (λ (r : SshKey). r.id)) (sym e) d
]

has_id-by_id :
    (n : ℕ) (ks : List SshKey)
    → has_id (λ (r : SshKey). r.id) n (by_id ks) ≡ has_id (λ (r : SshKey). r.id) n ks
has_id-by_id n [] = refl
has_id-by_id n (k ∷ ks) =
    has_id-insert_key n k (by_id ks) ∙ ap (λ b. k.id == n || b) (has_id-by_id n ks)

pub Distinct-by_id :
    (ks : List SshKey)
    → Distinct (λ (r : SshKey). r.id) ks
    → Distinct (λ (r : SshKey). r.id) (by_id ks)
Distinct-by_id [] d = tt
Distinct-by_id (k ∷ ks) d =
    Distinct-insert_key k (by_id ks) (has_id-by_id k.id ks ∙ d.0, Distinct-by_id ks d.1)
