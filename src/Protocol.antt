-- ===== src/Protocol.antt =====
-- crates/rgit-git/src/protocol.rs: the services and the pkt-line framing. A child process is not
-- modelled; what is passed to it is.
pub mod Framing
use rgit.Common.{
  ◌-◌, ℕ, zero, suc, ◌+◌, ◌/◌, ◌%◌, ◌++◌, Str, text, Bool, ◌&&◌, Option, none, some, List, [], ◌∷◌,
  all, length, leb, ltb, byte_len, str_eq, if◌then◌else◌,
}

pub data Service : Type 0 where
  upload_pack receive_pack upload_archive : Service

unfoldable pub name : Service → Str
name upload_pack = text "git-upload-pack"
name receive_pack = text "git-receive-pack"
name upload_archive = text "git-upload-archive"

unfoldable pub subcommand : Service → Str
subcommand upload_pack = text "upload-pack"
subcommand receive_pack = text "receive-pack"
subcommand upload_archive = text "upload-archive"

unfoldable pub from_wire : Str → Option Service
from_wire s =
    if str_eq s (text "git-upload-pack")
    then some upload_pack
    else if str_eq s (text "git-receive-pack")
    then some receive_pack
    else if str_eq s (text "git-upload-archive")
    then some upload_archive
    else none

-- A digit of `{:x}`
abbrev pub hex_digit : ℕ → ℕ
hex_digit d = if ltb d 10 then b'0' + d else b'a' + d - 10

abbrev pub four_digits : ℕ → List ℕ
four_digits n =
    hex_digit (n / 4096 % 16)
    ∷ hex_digit (n / 256 % 16)
    ∷ hex_digit (n / 16 % 16)
    ∷ hex_digit (n % 16)
    ∷ []

-- The digits in front of the last four, the leading zeros left out; the fuel is the number.
abbrev front_digits : ℕ → ℕ → List ℕ
front_digits zero n = []
front_digits (suc fuel) zero = []
front_digits (suc fuel) (suc n) = front_digits fuel (suc n / 16) ++ (hex_digit (suc n % 16) ∷ [])

-- `format!("{:04x}", n)`
unfoldable pub hex_width_4 : ℕ → List ℕ
hex_width_4 n = front_digits (n / 65536) (n / 65536) ++ four_digits n

-- The data is the list of its bytes.
unfoldable pub pkt_line : List ℕ → List ℕ
unfolding hex_width_4
pkt_line data_ = hex_width_4 (length data_ + 4) ++ data_

abbrev pub flush_pkt : List ℕ
flush_pkt = text "0000"

-- u8::is_ascii_graphic
abbrev is_ascii_graphic : ℕ → Bool
is_ascii_graphic c = leb 33 c && leb c 126

abbrev passed : Option Str → Option Str
passed none = none
passed (some p) = if leb (byte_len p) 64 && all is_ascii_graphic p then some p else none

-- The GIT_PROTOCOL variable that the child process gets.
unfoldable pub set_git_protocol : Option Str → Option Str
set_git_protocol protocol = passed protocol
