-- ===== src/GitRead/Arguments.antt =====
-- Which arguments a request can give Git.
use rgit.Common.{Str, text, ◌≡◌, false, Option, List, starts_with}
use rgit.Result.{ok}
use rgit.GitRead.{
  Command, tree_command, blob_command, history_command, commit_command, rev_parse_command,
}

-- The commands that the functions make of a request.
pub data Asked (c : Command) : Type 0 where
  tree : (reference path : Str) → tree_command reference path ≡ ok c → Asked c
  blob :
      (options : List Str) (reference path : Str)
      → blob_command options reference path ≡ ok c
      → Asked c
  history :
      (options : List Str) (reference : Str) (path : Option Str)
      → history_command options reference path ≡ ok c
      → Asked c
  one_commit : (options : List Str) (sha : Str) → commit_command options sha ≡ ok c → Asked c
  revision : (reference : Str) → rev_parse_command reference ≡ ok c → Asked c

abbrev pub IsNoOption : Str → Type 0
IsNoOption s = starts_with (text "-") s ≡ false
