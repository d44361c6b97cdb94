-- ===== src/PathSegment/Laws.antt =====
-- What a validated path segment can be.
use rgit.Common.{
  ℕ, ◌≡◌, refl, ◌≢◌, ◌≤◌, Str, text, [], ◌∷◌, Bool, true, false, not, ◌||◌, ◌==◌, all, byte_len,
  arith, &&-eq-true, is_whitespace, is_control, ends_with,
}
use rgit.Result.{ok}
use rgit.PathSegment.{validate_path_segment, is_segment_char}

all_imp :
    (p q : ℕ → Bool)
    → ((c : ℕ) → p c ≡ true → q c ≡ true)
    → (s : Str) → all p s ≡ true
    → all q s ≡ true
all_imp p q h [] a = refl
all_imp p q h (c ∷ s) a =
    let (here, rest) = &&-eq-true (p c) (all p s) a in
    ground (arith, h c here, all_imp p q h s rest)

abbrev pub is_plain : ℕ → Bool
is_plain c = not (is_whitespace c || is_control c || (c == b'/' || c == b'\''))

plain_char : (c : ℕ) → is_segment_char c ≡ true → is_plain c ≡ true
plain_char c h = ground arith

-- A valid path segment is neither empty nor longer than 255 bytes, is not "." or "..", does not
-- end in ".git", and holds no white space, control character, slash or single quote.
pub validate_path_segment_sound :
    (s : Str)
    → validate_path_segment s ≡ ok tt
    → (s ≢ [])
      × (byte_len s ≤ 255)
      × (s ≢ text ".")
      × (s ≢ text "..")
      × (ends_with (text ".git") s ≡ false)
      × (all is_plain s ≡ true)
unfolding validate_path_segment
validate_path_segment_sound s h = (
  (λ e. ground arith),
  ground arith,
  (λ e. ground arith),
  (λ e. ground arith),
  ground arith,
  all_imp is_segment_char is_plain plain_char s (ground arith),
)
