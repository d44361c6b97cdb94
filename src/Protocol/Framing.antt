-- ===== src/Protocol/Framing.antt =====
-- The service names read back, and so do the packets.
use rgit.Common.{
  ◌∙◌, drop-append, take-append, ℕ, ◌+◌, ◌-◌, ◌*◌, ◌<◌, ◌/◌, ◌%◌, ◌≡◌, ◌↔◌, refl, ap, Str, ◌++◌,
  Option, none, some, List, ◌∷◌, length, take, drop, ltb, str_eq, str_eq_iff, arith, if◌then◌else◌,
}
use rgit.Protocol.{
  Service, upload_pack, receive_pack, upload_archive, name, from_wire, hex_digit, four_digits,
  hex_width_4, pkt_line,
}

-- A wire name is read as a service exactly if it is that service's name.
pub from_wire_iff : (s : Str) (v : Service) → (from_wire s ≡ some v) ↔ (s ≡ name v)
unfolding from_wire name str_eq
from_wire_iff s upload_pack =
    (λ h. (str_eq_iff s (name upload_pack)).0 (ground arith), λ h. rw h refl)
from_wire_iff s receive_pack =
    (λ h. (str_eq_iff s (name receive_pack)).0 (ground arith), λ h. rw h refl)
from_wire_iff s upload_archive =
    (λ h. (str_eq_iff s (name upload_archive)).0 (ground arith), λ h. rw h refl)

-- A reader of pkt-lines: four hex digits that count themselves, then the data.
abbrev hex_value : ℕ → ℕ
hex_value c = if ltb c b'a' then c - b'0' else c + 10 - b'a'

abbrev pub read_length : List ℕ → Option ℕ
read_length (a ∷ b ∷ c ∷ d ∷ rest) =
    some (((hex_value a * 16 + hex_value b) * 16 + hex_value c) * 16 + hex_value d)
read_length _ = none

abbrev pub read_pkt : List ℕ → Option (List ℕ × List ℕ)
read_pkt bytes = elim (read_length bytes) [
  | none ↦ none
  | some n ↦ some (take (n - 4) (drop 4 bytes), drop (n - 4) (drop 4 bytes))
]

hex_value-hex_digit : (d : ℕ) → d < 16 → hex_value (hex_digit d) ≡ d
hex_value-hex_digit d h = ground arith

read_length-four_digits :
    (n : ℕ) (rest : List ℕ) → n < 65536 → read_length (four_digits n ++ rest) ≡ some n
read_length-four_digits n rest h =
    let a = hex_value-hex_digit (n / 4096 % 16) (omega arith) in
    let b = hex_value-hex_digit (n / 256 % 16) (omega arith) in
    let c = hex_value-hex_digit (n / 16 % 16) (omega arith) in
    let d = hex_value-hex_digit (n % 16) (omega arith) in
    ap some (rw a (rw b (rw c (rw d (omega arith)))))

read_pkt-some :
    (all : List ℕ) (n : ℕ)
    → read_length all ≡ some n
    → read_pkt all ≡ some (take (n - 4) (drop 4 all), drop (n - 4) (drop 4 all))
read_pkt-some all n h = rw (h, read_pkt) refl

-- A packet of fewer than 65532 bytes reads back, in front of any further bytes.
pub read_pkt-pkt_line :
    (bytes rest : List ℕ)
    → length bytes < 65532
    → read_pkt (pkt_line bytes ++ rest) ≡ some (bytes, rest)
unfolding pkt_line hex_width_4
read_pkt-pkt_line bytes rest h =
    let front : (length bytes + 4) / 65536 ≡ 0 = omega arith in
    let n = read_length-four_digits (length bytes + 4) (bytes ++ rest) (omega arith) in
    let m : length bytes + 4 - 4 ≡ length bytes = omega arith in
    let r =
      read_pkt-some (four_digits (length bytes + 4) ++ (bytes ++ rest)) (length bytes + 4) n in
    let t = take-append bytes rest in
    let d = drop-append bytes rest in rw front (r ∙ rw m (rw t (rw d refl)))
