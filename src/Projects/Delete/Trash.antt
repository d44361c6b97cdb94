-- ===== src/Projects/Delete/Trash.antt =====
-- The names of the trash directories of one deletion.
use rgit.Common.{
  ◌≡◌, ap, Str, text, ◌++◌, true, false, List, [], ◌∷◌, str_eq, All, ◌≢◌, str_eq_iff, length,
  length-append, arith, Bool-cases, inl, inr,
}
use rgit.Projects.Delete.{exists, renamed, trash_of, directories}
use rgit.Projects.Delete.Restored.{exists-renamed}

-- No directory has a trash name of this second, and the trash names differ.
abbrev pub Fresh : Str → List Str → List Str → Type 0
Fresh stamp dirs [] = Unit
Fresh stamp dirs (p ∷ ps) =
    (exists (trash_of stamp p) dirs ≡ false)
    × All (λ q. str_eq (trash_of stamp q) (trash_of stamp p) ≡ false) ps
    × Fresh stamp dirs ps

pub Fresh-renamed :
    (stamp from to : Str) (dirs paths : List Str)
    → All (λ q. str_eq (trash_of stamp q) to ≡ false) paths
    → Fresh stamp dirs paths
    → Fresh stamp (renamed from to dirs) paths
Fresh-renamed stamp from to dirs [] a f = tt
Fresh-renamed stamp from to dirs (p ∷ ps) a f = (
  ground (arith, a.0, f.0, exists-renamed (trash_of stamp p) from to dirs),
  f.1,
  Fresh-renamed stamp from to dirs ps a.1 f.2,
)

pub str_eq-length : (s t : Str) → str_eq s t ≡ true → length s ≡ length t
str_eq-length s t h = ap length ((str_eq_iff s t).0 h)

pub trash_of-apart :
    (stamp p q : Str) → length p ≢ length q → str_eq (trash_of stamp q) (trash_of stamp p) ≡ false
trash_of-apart stamp p q n = elim (Bool-cases (str_eq (trash_of stamp q) (trash_of stamp p))) [
  | inr f ↦ f
  | inl t ↦ absurd (
      n (
        omega (
          arith,
          str_eq-length (trash_of stamp q) (trash_of stamp p) t,
          length-append q (text ".deleted." ++ stamp),
          length-append p (text ".deleted." ++ stamp),
        )))
]

pub directories-Fresh :
    (stamp hash : Str) (dirs : List Str)
    → ((path : Str) → exists (trash_of stamp path) dirs ≡ false)
    → Fresh stamp dirs (directories hash)
directories-Fresh stamp hash dirs f =
    let wiki = hash ++ text ".wiki" in
    let design = hash ++ text ".design" in
    let w = length-append hash (text ".wiki") in
    let d = length-append hash (text ".design") in
    (
      f hash,
      (
        trash_of-apart stamp hash wiki (λ e. omega (arith, w, e)),
        (trash_of-apart stamp hash design (λ e. omega (arith, d, e)), tt),
      ),
      (
        f wiki,
        (trash_of-apart stamp wiki design (λ e. omega (arith, w, d, e)), tt),
        (f design, tt, tt),
      ),
    )
