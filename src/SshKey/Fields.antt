-- ===== src/SshKey/Fields.antt =====
-- The wire format of a key's fields, from the writer's side.
use rgit.Common.{
  drop-append, take-append, ℕ, ◌+◌, ◌-◌, ◌/◌, ◌%◌, ◌<◌, ◌^◌, ◌≡◌, refl, ap, sym, ◌∙◌, Str, ◌++◌,
  List, [], ◌∷◌, some, length, leb, length-append, append_assoc, arith, true,
}
use rgit.Result.{ok}
use rgit.SshKey.{slice, from_be_bytes, read_field}

-- A 32-bit length in network order, and a field of that length.
abbrev pub to_be_bytes : ℕ → List ℕ
to_be_bytes n = (n / 16777216) ∷ (n / 65536 % 256) ∷ (n / 256 % 256) ∷ (n % 256) ∷ []

abbrev pub field : List ℕ → List ℕ
field value = to_be_bytes (length value) ++ value

from-to_be_bytes : (n : ℕ) → n < 2 ^ 32 → from_be_bytes (to_be_bytes n) ≡ n
from-to_be_bytes n h = omega arith

slice-append :
    (before middle after : List ℕ)
    → slice (before ++ (middle ++ after)) (length before) (length before + length middle)
      ≡ some middle
slice-append before middle after =
    let n : length before + length middle - length before ≡ length middle = omega arith in
    let l1 = length-append before (middle ++ after) in
    let l2 = length-append middle after in
    let b : leb (length before + length middle) (length (before ++ (middle ++ after))) ≡ true =
      ground arith in
    rw b (rw n (rw (drop-append before (middle ++ after)) (ap some (take-append middle after))))

read_field-eq-ok :
    (blob : List ℕ) (cursor : ℕ) (name : Str) (prefix value : List ℕ) (n : ℕ)
    → slice blob cursor (cursor + 4) ≡ some prefix
    → from_be_bytes prefix ≡ n
    → slice blob (cursor + 4) (cursor + 4 + n) ≡ some value
    → read_field blob cursor name ≡ ok (value, cursor + 4 + n)
unfolding read_field
read_field-eq-ok blob cursor name prefix value n h k l = rw h (rw k (rw l refl))

-- Wherever a field of fewer than 2^32 bytes stands in a blob, reading there gives its bytes back and
-- moves the cursor to its end.
pub read_field-field :
    (before value after : List ℕ) (name : Str)
    → length value < 2 ^ 32
    → read_field (before ++ (field value ++ after)) (length before) name
      ≡ ok (value, length before + (4 + length value))
unfolding read_field
read_field-field before value after name h =
    let n = to_be_bytes (length value) in
    let move = sym (append_assoc before n (value ++ after)) in
    let len : length (before ++ n) ≡ length before + 4 = length-append before n in
    let body = slice-append (before ++ n) value after in
    let body' : slice (before ++ (n ++ (value ++ after))) (length before + 4)
          (length before + 4 + length value)
        ≡ some value =
      rw move (rw (← len) body) in
    let r =
      read_field-eq-ok (before ++ (n ++ (value ++ after))) (length before) name n value
        (length value) (slice-append before n (value ++ after)) (from-to_be_bytes (length value) h)
        body' in
    let e : length before + 4 + length value ≡ length before + (4 + length value) = omega arith in
    r ∙ ap (λ t. ok (value, t)) e
