-- ===== src/Common/Cuts.antt =====
-- What `strip_prefix` and `split_once` say of a text.
use Prim.Native.Nat.{ℕ}
use mathlib.Core.Path.{◌≡◌, ap, subst}
use mathlib.Core.Logic.{inl, inr}
use mathlib.Core.Bool.{false}
use mathlib.Core.List.{[], ◌∷◌, ◌++◌}
use mathlib.Core.Option.{some}
use native.Mathlib.Omega.{arith}
use rgit.Common.Tests.{◌==◌, Bool-cases, Option-cases}
use rgit.Common.Text.{Str, strip_prefix, split_once, contains}

pub strip_prefix-append_eq : (p s r : Str) → strip_prefix p s ≡ some r → s ≡ p ++ r
unfolding strip_prefix
strip_prefix-append_eq [] s r h = ground arith
strip_prefix-append_eq (c ∷ p) [] r h = cc
strip_prefix-append_eq (c ∷ p) (d ∷ s) r h = elim (Bool-cases (c == d)) [
  | inl t ↦ ground (arith, strip_prefix-append_eq p s r)
  | inr f ↦ absurd (ground arith)
]

-- The parts make the text, and the first has no separator.
pub split_once-parts :
    (s : Str) (c : ℕ) (r : Str × Str)
    → split_once (λ d. d == c) s ≡ some r
    → (s ≡ r.0 ++ (c ∷ r.1)) × (contains c r.0 ≡ false)
unfolding split_once
split_once-parts [] c r h = cc
split_once-parts (d ∷ s) c (a, b) h = elim (Bool-cases (d == c)) [
  | inl t ↦ (ground arith, ground arith)
  | inr f ↦ elim (Option-cases (split_once (λ d. d == c) s)) [
    | inl e ↦ absurd (ground arith)
    | inr ((x, y), e) ↦
        let (whole, before) = split_once-parts s c (x, y) e in
        let head_same : d ∷ x ≡ a = ground arith in
        let tail_same : y ≡ b = ground arith in
        (
          subst (λ q. d ∷ s ≡ q ++ (c ∷ b)) head_same
              (subst (λ q. d ∷ s ≡ (d ∷ x) ++ (c ∷ q)) tail_same (ap (λ q. d ∷ q) whole)),
          subst (λ q. contains c q ≡ false) head_same (ground arith),
        )
  ]
]
