-- ===== src/SshKey.antt =====
-- crates/rgit-core/src/auth/sshkey.rs. A blob is the list of its bytes; the cursor is an argument and a
-- result. base64, SHA-256 and the UTF-8 decoder are arguments. Offsets fit in a 64-bit `usize`.
pub mod Fields
pub mod Lines
use rgit.Common.{
  ℕ, suc, ◌+◌, ◌-◌, ◌*◌, Str, text, ◌++◌, Bool, true, false, not, ◌&&◌, ◌||◌, ◌==◌, ltb, leb,
  Option, none, some, List, [], ◌∷◌, all, length, take, drop, head?, byte_len, str_eq, trim,
  split_whitespace, is_empty, if◌then◌else◌,
}
use rgit.Error.{Error, invalid}
use rgit.Result.{Result, ok, err, ◌>>=◌, ◌>>◌, ensure}

abbrev pub max_key_line_bytes : ℕ
max_key_line_bytes = 64 * 1024

pub record ParsedKey : Type 0 where
  pub normalized : Str
  pub fingerprint_sha256 : Str
  pub algorithm : Str
  pub comment : Str

-- blob.get(a..b)
abbrev pub slice : List ℕ → ℕ → ℕ → Option (List ℕ)
slice blob a b = if leb b (length blob) then some (take (b - a) (drop a blob)) else none

abbrev pub from_be_bytes : List ℕ → ℕ
from_be_bytes (a ∷ b ∷ c ∷ d ∷ []) = ((a * 256 + b) * 256 + c) * 256 + d
from_be_bytes _ = 0

abbrev truncated : Str → Error
truncated name = invalid (text "truncated " ++ name)

abbrev take_field : List ℕ → ℕ → Str → Option (List ℕ) → Result (List ℕ × ℕ)
take_field blob end name none = err (truncated name)
take_field blob end name (some field) = ok (field, end)

abbrev pub after_prefix : List ℕ → ℕ → Str → Option (List ℕ) → Result (List ℕ × ℕ)
after_prefix blob cursor name none = err (truncated name)
after_prefix blob cursor name (some prefix) =
    take_field blob (cursor + from_be_bytes prefix) name
      (slice blob cursor (cursor + from_be_bytes prefix))

-- A 32-bit length and as many bytes; the new cursor.
unfoldable pub read_field : List ℕ → ℕ → Str → Result (List ℕ × ℕ)
read_field blob cursor name = after_prefix blob (cursor + 4) name (slice blob cursor (cursor + 4))

abbrev pub require_nonempty : List ℕ → Str → Result (Unit {0})
require_nonempty value name =
    ensure (not (is_empty value)) (invalid (name ++ text " cannot be empty"))

abbrev pub require_length : List ℕ → ℕ → Str → Result (Unit {0})
require_length value expected name =
    ensure (length value == expected) (invalid (text "invalid " ++ name ++ text " length"))

-- value[0] & 0x80 != 0
abbrev pub high_bit : ℕ → Bool
high_bit b = leb 128 b

abbrev first_high : List ℕ → Bool
first_high [] = false
first_high (b ∷ bs) = high_bit b

-- value.len() > 1 && value[0] == 0 && value[1] & 0x80 == 0
abbrev padded : List ℕ → Bool
padded (a ∷ b ∷ bs) = a == 0 && not (high_bit b)
padded _ = false

unfoldable pub validate_positive_mpint : List ℕ → Str → Result (Unit {0})
validate_positive_mpint value name = do
  require_nonempty value name
  ensure (not (first_high value || all (λ b. b == 0) value))
      (invalid (name ++ text " must be positive"))
  ensure (not (padded value)) (invalid (name ++ text " is not minimally encoded"))

-- u8::leading_zeros
abbrev pub leading_zeros : ℕ → ℕ
leading_zeros b =
    if leb 128 b
    then 0
    else if leb 64 b
    then 1
    else if leb 32 b
    then 2
    else if leb 16 b
    then 3
    else if leb 8 b
    then 4
    else if leb 4 b
    then 5
    else if leb 2 b
    then 6
    else if leb 1 b
    then 7
    else 8

abbrev strip_zero : List ℕ → List ℕ
strip_zero [] = []
strip_zero (b ∷ bs) = if b == 0 then bs else b ∷ bs

abbrev bits_of : List ℕ → ℕ
bits_of [] = 0
bits_of (b ∷ bs) = length (b ∷ bs) * 8 - leading_zeros b

unfoldable pub mpint_bits : List ℕ → ℕ
mpint_bits value = bits_of (strip_zero value)

module _ (utf8 : List ℕ → Option Str) where
  abbrev decoded : Str → ℕ → Option Str → Result (Str × ℕ)
  decoded name cursor none = err (invalid (text "invalid " ++ name))
  decoded name cursor (some s) = ok (s, cursor)

  unfoldable pub read_string : List ℕ → ℕ → Str → Result (Str × ℕ)
  read_string blob cursor name = do
    field ← read_field blob cursor name
    decoded name field.1 (utf8 field.0)

  abbrev starts_uncompressed : Option ℕ → Bool
  starts_uncompressed none = false
  starts_uncompressed (some b) = b == 4

  -- The cursor after the key's fields.
  unfoldable pub validate_ecdsa : List ℕ → ℕ → Str → ℕ → Result ℕ
  validate_ecdsa blob cursor expected_curve point_length = do
    curve ← read_string blob cursor (text "ECDSA curve")
    ensure (str_eq curve.0 expected_curve)
        (invalid (text "ECDSA curve does not match key algorithm"))
    point ← read_field blob curve.1 (text "ECDSA point")
    require_length point.0 point_length (text "ECDSA point")
    ensure (starts_uncompressed (head? point.0)) (invalid (text "ECDSA point must be uncompressed"))
    ok point.1

  unfoldable pub validate_ed25519 : List ℕ → ℕ → Result ℕ
  validate_ed25519 blob cursor = do
    key ← read_field blob cursor (text "Ed25519 key")
    require_length key.0 32 (text "Ed25519 key")
    ok key.1

  unfoldable pub validate_rsa : List ℕ → ℕ → Result ℕ
  validate_rsa blob cursor = do
    exponent ← read_field blob cursor (text "RSA exponent")
    validate_positive_mpint exponent.0 (text "RSA exponent")
    ensure (leb (length exponent.0) 8) (invalid (text "RSA exponent is too large"))
    modulus ← read_field blob exponent.1 (text "RSA modulus")
    validate_positive_mpint modulus.0 (text "RSA modulus")
    ensure (leb 2048 (mpint_bits modulus.0)) (invalid (text "RSA keys must be at least 2048 bits"))
    ok modulus.1

  unfoldable pub validate_application : List ℕ → ℕ → Result ℕ
  validate_application blob cursor = do
    application ← read_field blob cursor (text "security key application")
    require_nonempty application.0 (text "security key application")
    ok application.1

  unfoldable pub validate_key_blob : Str → List ℕ → ℕ → Result ℕ
  validate_key_blob algorithm blob cursor =
      if str_eq algorithm (text "ssh-ed25519")
      then validate_ed25519 blob cursor
      else if str_eq algorithm (text "ssh-rsa")
      then validate_rsa blob cursor
      else if str_eq algorithm (text "ecdsa-sha2-nistp256")
      then validate_ecdsa blob cursor (text "nistp256") 65
      else if str_eq algorithm (text "ecdsa-sha2-nistp384")
      then validate_ecdsa blob cursor (text "nistp384") 97
      else if str_eq algorithm (text "ecdsa-sha2-nistp521")
      then validate_ecdsa blob cursor (text "nistp521") 133
      else if str_eq algorithm (text "sk-ssh-ed25519@openssh.com")
      then validate_ed25519 blob cursor >>= validate_application blob
      else if str_eq algorithm (text "sk-ecdsa-sha2-nistp256@openssh.com")
      then validate_ecdsa blob cursor (text "nistp256") 65 >>= validate_application blob
      else if str_eq algorithm (text "ssh-dss")
      then err (invalid (text "DSA keys are not accepted"))
      else err (invalid (text "unsupported SSH public key algorithm"))

-- The standard base64 engine, the unpadded digest of a blob, and from_utf8.
pub record Codec : Type 0 where
  pub decode : Str → Option (List ℕ)
  pub encode : List ℕ → Str
  pub fingerprint : List ℕ → Str
  pub utf8 : List ℕ → Option Str

-- Vec::join(" ")
abbrev pub join : List Str → Str
join [] = []
join (s ∷ []) = s
join (s ∷ t ∷ ss) = s ++ text " " ++ join (t ∷ ss)

module _ (codec : Codec) where
  abbrev pub parse_blob : Str → Str → List ℕ → Result ParsedKey
  parse_blob algorithm comment blob = do
    wire ← read_string codec.utf8 blob 0 (text "algorithm")
    ensure (str_eq wire.0 algorithm)
        (invalid (text "SSH public key algorithm does not match key data"))
    cursor ← validate_key_blob codec.utf8 algorithm blob wire.1
    ensure (cursor == length blob) (invalid (text "SSH public key contains trailing data"))
    ok (record {
      normalized = algorithm ++ text " " ++ codec.encode blob;
      fingerprint_sha256 = codec.fingerprint blob;
      algorithm = algorithm;
      comment = comment;
    })

  abbrev pub parse_decoded : Str → Str → Option (List ℕ) → Result ParsedKey
  parse_decoded algorithm comment none = err (invalid (text "invalid SSH public key base64"))
  parse_decoded algorithm comment (some blob) = parse_blob algorithm comment blob

  abbrev pub parse_parts : List Str → Result ParsedKey
  parse_parts [] = err (invalid (text "missing SSH key algorithm"))
  parse_parts (algorithm ∷ []) = err (invalid (text "missing SSH public key data"))
  parse_parts (algorithm ∷ encoded ∷ comment) =
      parse_decoded algorithm (join comment) (codec.decode encoded)

  unfoldable pub parse_public_key : Str → Result ParsedKey
  parse_public_key input =
      if is_empty (trim input) || ltb max_key_line_bytes (byte_len (trim input))
      then err (invalid (text "invalid SSH public key length"))
      else parse_parts (split_whitespace (trim input))
