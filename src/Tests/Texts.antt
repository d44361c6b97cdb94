-- ===== src/Tests/Texts.antt =====
-- Command lines, keys, packets, pages and error texts.
use rgit.Common.{
  ◌%◌, ℕ, ◌+◌, Str, text, refl, some, List, [], ◌∷◌, ◌++◌, str_eq, arith, map, strip_prefix,
  strip_suffix, split_once, trim, trim_start, trim_end,
}
use rgit.Protocol.{from_wire, receive_pack}
use rgit.Shell.{ShellCommand, git, parse_command, parse_repository_path, unquote_single_argument}
use rgit.Shell.Parsed.{IsSafe, parse_command-IsSafe}
use rgit.SshKey.{Codec, ParsedKey}
use rgit.SshKey.Fields.{field}
use rgit.SshKey.Lines.{OneLine}
use rgit.Pagination.{Pagination}

abbrev push : ShellCommand
push = record { action = git receive_pack; namespace = text "team"; project = text "demo" }

parse_command-IsSafe_example : IsSafe (text "team") (text "demo")
unfolding parse_command parse_repository_path unquote_single_argument from_wire split_once
    strip_prefix strip_suffix trim trim_start trim_end str_eq
parse_command-IsSafe_example =
    parse_command-IsSafe (text "git-receive-pack 'team/demo.git'") push refl

safe : IsSafe (text "team") (text "demo")
safe = record {
  has_namespace = refl;
  has_project = refl;
  no_slash = refl;
  no_slash' = refl;
  no_control = refl;
  no_control' = refl;
}

abbrev second : Pagination
second = record { page = 2; per_page = 2 }

-- An Ed25519 key, its 32 bytes all alike.
abbrev key_bytes : List ℕ
key_bytes = text "________________________________"

abbrev pub key_blob : List ℕ
key_blob = field (text "ssh-ed25519") ++ field key_bytes

abbrev pub letters : List ℕ → Str
letters bytes = map (λ b. b'A' + b % 26) bytes

letters-OneLine : (bytes : List ℕ) → OneLine (letters bytes)
letters-OneLine [] = refl
letters-OneLine (b ∷ bytes) = ground (arith, letters-OneLine bytes)

abbrev pub codec : Codec
codec = record {
  decode = λ s. some key_blob;
  encode = letters;
  fingerprint = letters;
  utf8 = λ b. some b;
}

abbrev pub parsed : ParsedKey
parsed = record {
  normalized = text "ssh-ed25519" ++ text " " ++ letters key_blob;
  fingerprint_sha256 = letters key_blob;
  algorithm = text "ssh-ed25519";
  comment = text "me";
}
