-- ===== src/Shell.antt =====
-- crates/rgit-ssh/src/shell.rs. `none` of a parser is ShellError::InvalidCommand.
pub mod Parsed
pub mod Run
use rgit.Common.{
  ℕ, Str, text, ◌++◌, Bool, true, false, not, ◌&&◌, ◌||◌, ◌==◌, Option, none, some, List, [], ◌∷◌,
  any, length, reverse, and_then, str_eq, contains, is_empty, is_control, is_whitespace,
  strip_prefix, strip_suffix, split_once, split_whitespace, trim, trim_start, if◌then◌else◌, ltb,
  byte_len, leb,
}
use rgit.Perm.{RepoAction, read, write}
use rgit.Protocol.{Service, upload_pack, receive_pack, upload_archive, from_wire}

pub data ShellError : Type 0 where
  invalid_command repository_not_found access_denied archived internal : ShellError

pub data ShellAction : Type 0 where
  git : Service → ShellAction
  lfs : (can_write : Bool) → ShellAction

pub record ShellCommand : Type 0 where
  pub action : ShellAction
  pub namespace : Str
  pub project : Str

unfoldable pub repo_action : ShellAction → RepoAction
repo_action (git receive_pack) = write
repo_action (git upload_pack) = read
repo_action (git upload_archive) = read
repo_action (lfs can_write) = if can_write then write else read

abbrev unwrap_or : Option Str → Str → Str
unwrap_or none s = s
unwrap_or (some t) s = t

-- A part of a path that the parser takes.
abbrev pub bad_part : Str → Bool
bad_part part = any (λ c. is_control c || c == 0) part

abbrev pub check_parts : Str × Str → Option (Str × Str)
check_parts (namespace, project) =
    if is_empty namespace
      || is_empty project
      || contains b'/' project
      || bad_part namespace
      || bad_part project
    then none
    else some (namespace, project)

abbrev pub without_suffix : Str → Str
without_suffix path = unwrap_or (strip_suffix (text ".git") path) path

-- The path without a slash in front and without `.git` behind.
abbrev pub stripped : Str → Str
stripped path = without_suffix (unwrap_or (strip_prefix (text "/") path) path)

unfoldable pub parse_repository_path : Str → Option (Str × Str)
parse_repository_path path = and_then (split_once (λ c. c == b'/') (stripped path)) check_parts

-- path.contains(['\'', '"', '\\', ';', '`', '$'])
abbrev pub is_special : ℕ → Bool
is_special c = c == 39 || c == 34 || c == 92 || c == 59 || c == 96 || c == 36

abbrev is_quote : ℕ → Bool
is_quote c = c == 39 || c == 34

abbrev quoted_operation : Str × Str → Option (Str × Str)
quoted_operation (path, rest) =
    if any is_whitespace (trim rest) || is_empty (trim rest) then none else some (path, trim rest)

abbrev two_words : List Str → Option (Str × Str)
two_words (path ∷ operation ∷ []) = if any is_special path then none else some (path, operation)
two_words _ = none

abbrev lfs_arguments : Str → Option (Str × Str)
lfs_arguments [] = two_words (split_whitespace [])
lfs_arguments (q ∷ rest) =
    if is_quote q
    then and_then (split_once (λ c. c == q) rest) quoted_operation
    else two_words (split_whitespace (q ∷ rest))

unfoldable pub split_lfs_arguments : Str → Option (Str × Str)
split_lfs_arguments argument = lfs_arguments (trim argument)

-- The text between its first and last character.
abbrev inner_of : Str → Str
inner_of [] = []
inner_of (c ∷ s) = elim (reverse s) [ [] ↦ [] | l ∷ r ↦ reverse r ]

abbrev last_of : Str → Option ℕ
last_of s = elim (reverse s) [ [] ↦ none | l ∷ r ↦ some l ]

abbrev pub is_char : Option ℕ → ℕ → Bool
is_char none c = false
is_char (some d) c = c == d

abbrev plain_argument : Str → Option Str
plain_argument argument =
    if any is_whitespace argument || any is_special argument then none else some argument

abbrev unquoted : ℕ → Str → Option Str
unquoted first argument =
    if contains first (inner_of argument) then none else some (inner_of argument)

-- An argument of one byte has no two quotes.
abbrev pub unquote : Str → Option Str
unquote [] = plain_argument []
unquote (first ∷ s) =
    if is_quote first && is_char (last_of s) first
    then unquoted first (first ∷ s)
    else plain_argument (first ∷ s)

unfoldable pub unquote_single_argument : Str → Option Str
unquote_single_argument argument = unquote argument

-- `git upload-pack` is `git-upload-pack`.
abbrev pub git_subcommand : Option (Str × Str) → Option (Str × Str)
git_subcommand none = none
git_subcommand (some (subcommand, argument)) = some (text "git-" ++ subcommand, trim argument)

abbrev pub normal_name : Str × Str → Option (Str × Str)
normal_name (name, argument) =
    if str_eq name (text "git")
    then git_subcommand (split_once is_whitespace (trim_start argument))
    else some (name, trim argument)

abbrev lfs_operation : Str → Option Bool
lfs_operation operation =
    if str_eq operation (text "upload")
    then some true
    else if str_eq operation (text "download")
    then some false
    else none

abbrev lfs_action : Str × Str → Option (ShellAction × Str)
lfs_action (path, operation) =
    and_then (lfs_operation operation) (λ can_write. some (lfs can_write, path))

abbrev git_action : Str → Service → Option (ShellAction × Str)
git_action argument service =
    and_then (unquote_single_argument argument) (λ path. some (git service, path))

abbrev pub action_of : Str × Str → Option (ShellAction × Str)
action_of (name, argument) =
    if str_eq name (text "git-lfs-authenticate")
    then and_then (split_lfs_arguments argument) lfs_action
    else and_then (from_wire name) (git_action argument)

abbrev pub command_of : ShellAction × Str → Option ShellCommand
command_of (action, path) =
    and_then (parse_repository_path path)
      (λ parts. some (record { action = action; namespace = parts.0; project = parts.1 }))

unfoldable pub parse_command : Str → Option ShellCommand
parse_command raw =
    and_then (and_then (and_then (split_once is_whitespace (trim raw)) normal_name) action_of)
      command_of
