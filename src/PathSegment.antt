-- ===== src/PathSegment.antt =====
-- crates/rgit-core/src/path.rs: the policy for namespace, project and user names in URLs.
pub mod Laws
use rgit.Common.{
  ℕ, Str, text, List, [], ◌∷◌, Bool, true, false, not, ◌&&◌, ◌||◌, ◌==◌, leb, any, all, str_eq,
  is_empty, byte_len, is_ascii_alphanumeric, starts_with, ends_with, if◌then◌else◌,
}
use rgit.Error.{Error, invalid}
use rgit.Result.{Result, ok, err}

abbrev pub reserved_roots : List Str
reserved_roots =
    text "api"
    ∷ text "admin"
    ∷ text "login"
    ∷ text "settings"
    ∷ text "groups"
    ∷ text "assets"
    ∷ text "-"
    ∷ text "explore"
    ∷ []

unfoldable pub is_reserved_root : Str → Bool
is_reserved_root s = any (str_eq s) reserved_roots

-- A byte of a character outside ASCII is none of these, so the test is made on characters.
abbrev pub is_segment_char : ℕ → Bool
is_segment_char c = is_ascii_alphanumeric c || (c == b'_' || c == b'.' || c == b'-')

abbrev starts_alphanumeric : Str → Bool
starts_alphanumeric [] = false
starts_alphanumeric (c ∷ s) = is_ascii_alphanumeric c

unfoldable pub segment_ok : Str → Bool
segment_ok s =
    not (is_empty s)
    && leb (byte_len s) 255
    && starts_alphanumeric s
    && all is_segment_char s
    && not (str_eq s (text "."))
    && not (str_eq s (text ".."))
    && not (starts_with (text "@") s)
    && not (ends_with (text ".git") s)
    && not (ends_with (text ".wiki") s)
    && not (ends_with (text ".atom") s)

unfoldable pub validate_path_segment : Str → Result (Unit {0})
unfolding segment_ok
validate_path_segment s =
    if segment_ok s then ok tt else err (invalid (text "invalid path segment"))
