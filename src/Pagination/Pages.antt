-- ===== src/Pagination/Pages.antt =====
-- The pages cover the rows without a gap or an overlap.
use rgit.Common.{
  sym, ℕ, zero, suc, ◌+◌, ◌-◌, ◌*◌, ◌^◌, ◌≤◌, ◌<◌, ◌≡◌, refl, ap, List, [], ◌∷◌, ◌++◌, length, take,
  drop, length-take, length-drop, arith,
}
use native.Mathlib.Nat.{suc-mul, mul-le-mul}
use rgit.Pagination.{at_least, Pagination, limit, offset, page_of}

abbrev pub next_page : Pagination → Pagination
next_page p = record p { page = suc p.page }

limit-bounds : (p : Pagination) → (1 ≤ limit p) × (limit p ≤ 100)
unfolding limit
limit-bounds p = ground arith

pred-at_least : (n : ℕ) → 1 ≤ n → at_least (suc n) 1 - 1 ≡ suc (at_least n 1 - 1)
pred-at_least n h = ground arith

offset-next_page : (p : Pagination) → 1 ≤ p.page → offset (next_page p) ≡ offset p + limit p
unfolding offset limit
offset-next_page p h = rw (pred-at_least p.page h) (suc-mul (at_least p.page 1 - 1) (limit p))

module _ {ℓ} {A : Type ℓ} where
  take-nil : (n : ℕ) → take {A = A} n [] ≡ []
  take-nil zero = refl
  take-nil (suc n) = refl

  take-plus : (m n : ℕ) (xs : List A) → take (m + n) xs ≡ take m xs ++ take n (drop m xs)
  take-plus zero n xs = ap (λ k. take k xs) (omega arith)
  take-plus (suc m) n [] = rw (take-nil (suc m + n)) (sym (take-nil n))
  take-plus (suc m) n (x ∷ xs) =
      let e : suc m + n ≡ suc (m + n) = omega arith in rw e (ap (λ t. x ∷ t) (take-plus m n xs))

  -- For every page from 1 on, the rows before the next page are those before this page and then
  -- this page; and a page holds at most 100 rows.
  pub page_of-next_page :
      (p : Pagination) (rows : List A)
      → 1 ≤ p.page
      → (take (offset (next_page p)) rows ≡ take (offset p) rows ++ page_of p rows)
        × (length (page_of p rows) ≤ 100)
  unfolding page_of
  page_of-next_page p rows h =
      let (low, high) = limit-bounds p in
      let n = length-take (limit p) (drop (offset p) rows) in
      let m = length-drop (offset p) rows in
      (rw (offset-next_page p h) (take-plus (offset p) (limit p) rows), omega arith)

-- No page of u32 fields overflows the i64 offset, and a page holds from 1 to 100 rows.
pub offset-bound :
    (p : Pagination) → p.page < 2 ^ 32 → (offset p < 2 ^ 63) × (1 ≤ limit p) × (limit p ≤ 100)
unfolding offset
offset-bound p h =
    let (low, high) = limit-bounds p in
    let n : at_least p.page 1 - 1 ≤ 4294967296 = ground arith in
    let m : (at_least p.page 1 - 1) * limit p ≤ 4294967296 * 100 = mul-le-mul n high in
    (omega arith, low, high)
