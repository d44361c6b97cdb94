-- ===== src/Common/Text.antt =====
-- Rust's `str` as the list of its characters (Unicode scalar values), with the methods used.
use Prim.Native.Nat.{ℕ, zero, suc, ◌+◌, ◌-◌, ◌*◌}
use Prim.Native.Char.{code}
use Prim.Native.String.{String}
use mathlib.Core.Path.{◌≡◌, refl}
use mathlib.Core.Logic.{◌↔◌}
use mathlib.Core.Bool.{Bool, true, false, ◌&&◌, ◌||◌}
use mathlib.Core.List.{List, [], ◌∷◌, map, reverse}
use mathlib.Core.Option
use mathlib.Core.Option.{Option, none, some}
use native.Mathlib.Omega.{arith}
use rgit.Common.Tests.{◌==◌, ltb, leb, if◌then◌else◌}
use rgit.Common.Int.{ℤ, pos, negsuc}
use rgit.Common.Lists.{any, is_some}

abbrev pub Str : Type 0
Str = List ℕ

abbrev pub text : String → Str
text String.[] = []
text (String.◌∷◌ c s) = code c ∷ text s

unfoldable pub str_eq : Str → Str → Bool
str_eq [] [] = true
str_eq (a ∷ s) (b ∷ t) = a == b && str_eq s t
str_eq _ _ = false

pub str_eq_iff : (s t : Str) → (str_eq s t ≡ true) ↔ (s ≡ t)
unfolding str_eq
str_eq_iff [] [] = ground arith
str_eq_iff [] (b ∷ t) = ground arith
str_eq_iff (a ∷ s) [] = ground arith
str_eq_iff (a ∷ s) (b ∷ t) = ground (arith, str_eq_iff s t)

pub str_eq_refl : (s : Str) → str_eq s s ≡ true
str_eq_refl s = (str_eq_iff s s).1 refl

-- char::len_utf8, summed: `str::len`
abbrev pub len_utf8 : ℕ → ℕ
len_utf8 c = if ltb c 0x80 then 1 else if ltb c 0x800 then 2 else if ltb c 0x10000 then 3 else 4

abbrev pub byte_len : Str → ℕ
byte_len [] = 0
byte_len (c ∷ s) = len_utf8 c + byte_len s

abbrev pub is_empty {ℓ} : {A : Type ℓ} → List A → Bool
is_empty [] = true
is_empty (x ∷ xs) = false

abbrev pub contains : ℕ → Str → Bool
contains c s = any (λ d. d == c) s

-- str::strip_prefix and str::starts_with
unfoldable pub strip_prefix : Str → Str → Option Str
strip_prefix [] s = some s
strip_prefix (p ∷ ps) [] = none
strip_prefix (p ∷ ps) (c ∷ s) = if p == c then strip_prefix ps s else none

-- str::strip_suffix
unfoldable pub strip_suffix : Str → Str → Option Str
unfolding strip_prefix
strip_suffix p s = Option.map reverse (strip_prefix (reverse p) (reverse s))

abbrev pub starts_with : Str → Str → Bool
starts_with p s = is_some (strip_prefix p s)

abbrev pub ends_with : Str → Str → Bool
ends_with p s = is_some (strip_suffix p s)

-- str::split_once: the text before the first match, and after it
unfoldable pub split_once : (ℕ → Bool) → Str → Option (Str × Str)
split_once p [] = none
split_once p (c ∷ s) =
    if p c then some ([], s) else Option.map (λ r. (c ∷ r.0, r.1)) (split_once p s)

-- char::is_whitespace: the White_Space property of Unicode
abbrev pub is_whitespace : ℕ → Bool
is_whitespace c =
    (leb 9 c && leb c 13)
    || c == 32
    || c == 0x85
    || c == 0xa0
    || c == 0x1680
    || (leb 0x2000 c && leb c 0x200a)
    || c == 0x2028
    || c == 0x2029
    || c == 0x202f
    || c == 0x205f
    || c == 0x3000

-- char::is_control: general category Cc
abbrev pub is_control : ℕ → Bool
is_control c = ltb c 32 || (leb 0x7f c && leb c 0x9f)

abbrev pub is_ascii_digit : ℕ → Bool
is_ascii_digit c = leb b'0' c && leb c b'9'

abbrev pub is_ascii_alphanumeric : ℕ → Bool
is_ascii_alphanumeric c =
    is_ascii_digit c || (leb b'A' c && leb c b'Z') || (leb b'a' c && leb c b'z')

abbrev pub to_ascii_lowercase : ℕ → ℕ
to_ascii_lowercase c = if leb b'A' c && leb c b'Z' then c + 32 else c

-- COLLATE NOCASE: SQLite folds the ASCII letters only
unfoldable pub nocase : Str → Str → Bool
unfolding str_eq
nocase s t = str_eq (map to_ascii_lowercase s) (map to_ascii_lowercase t)

unfoldable pub trim_start : Str → Str
trim_start [] = []
trim_start (c ∷ s) = if is_whitespace c then trim_start s else c ∷ s

unfoldable pub trim_end : Str → Str
unfolding trim_start
trim_end s = reverse (trim_start (reverse s))

unfoldable pub trim : Str → Str
unfolding trim_start trim_end
trim s = trim_end (trim_start s)

-- str::split(char): one piece more than there are separators
unfoldable pub split_from : ℕ → Str → Str → List Str
split_from c acc [] = reverse acc ∷ []
split_from c acc (d ∷ s) =
    let cut = split_from c [] s in
    let longer = split_from c (d ∷ acc) s in if d == c then reverse acc ∷ cut else longer

unfoldable pub split : ℕ → Str → List Str
unfolding split_from
split c s = split_from c [] s

-- str::split_whitespace: the pieces that are not empty
unfoldable pub words_from : Str → Str → List Str
words_from [] [] = []
words_from (a ∷ acc) [] = reverse (a ∷ acc) ∷ []
words_from acc (d ∷ s) =
    let here = words_from [] s in
    let longer = words_from (d ∷ acc) s in
    if is_whitespace d then (if is_empty acc then here else reverse acc ∷ here) else longer

unfoldable pub split_whitespace : Str → List Str
unfolding words_from
split_whitespace s = words_from [] s

-- `str::parse::<i64>()`: an optional sign and at least one digit, within the range of the type
unfoldable pub digits_value : ℕ → Str → Option ℕ
digits_value acc [] = some acc
digits_value acc (c ∷ s) = if is_ascii_digit c then digits_value (acc * 10 + (c - b'0')) s else none

abbrev pub unsigned : Str → Option ℕ
unsigned [] = none
unsigned (c ∷ s) = digits_value 0 (c ∷ s)

abbrev pub positive : Option ℕ → Option ℤ
positive none = none
positive (some n) = if ltb n 0x8000_0000_0000_0000 then some (pos n) else none

abbrev pub negative : Option ℕ → Option ℤ
negative none = none
negative (some zero) = some (pos 0)
negative (some (suc n)) = if ltb n 0x8000_0000_0000_0000 then some (negsuc n) else none

abbrev pub after_sign : ℕ → Str → Option ℤ
after_sign c s =
    if c == b'-'
    then negative (unsigned s)
    else if c == b'+'
    then positive (unsigned s)
    else positive (unsigned (c ∷ s))

unfoldable pub parse_i64 : Str → Option ℤ
unfolding digits_value
parse_i64 [] = none
parse_i64 (c ∷ s) = after_sign c s
