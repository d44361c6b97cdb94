-- ===== src/GitRead.antt =====
-- crates/rgit-git/src/read.rs: what the browsing API asks Git for. Running Git, the decoding of its bytes and the
-- printing of a number are arguments; what is left out of a command is its working directory.
pub mod Output
pub mod Commits
pub mod Arguments
use rgit.Common.{
  ◌*◌, ℕ, Str, text, ◌++◌, Bool, true, false, not, ◌&&◌, ◌||◌, ◌==◌, ltb, leb, Option, none, some,
  List, [], ◌∷◌, ℤ, map, any, and_then, head?, is_empty, split, trim, parse_i64, starts_with,
  if◌then◌else◌,
}
use rgit.Error.{Error, invalid, git, not_found}
use rgit.Result.{Result, ok, err, ◌>>=◌, ◌>>◌}
use rgit.GitRead.Output.{
  CommitInfo, TreeEntry, RefInfo, parse_commits, parse_tree, parse_refs, parse_usize,
}

-- `options` are written in the source; `revision` is made of the request's text, and `paths` stand behind "--".
pub record Command : Type 0 where
  pub options : List Str
  pub revision : List Str
  pub paths : List Str

pub record Git : Type 0 where
  pub run_limited : Command → ℕ → Result (List ℕ)
  pub decode : List ℕ → Str
  pub decimal : ℕ → Str

unfoldable pub check_arg : Str → Result Str
check_arg s =
    if starts_with (text "-") s || any (λ c. c == 0) s
    then err (invalid (text "invalid ref or path"))
    else ok s

abbrev pub tree_output_limit : ℕ
tree_output_limit = 16 * 1024 * 1024

abbrev pub log_output_limit : ℕ
log_output_limit = 16 * 1024 * 1024

abbrev pub commit_output_limit : ℕ
commit_output_limit = 2 * 1024 * 1024

abbrev pub diff_output_limit : ℕ
diff_output_limit = 32 * 1024 * 1024

-- run_git's own limit
abbrev pub default_output_limit : ℕ
default_output_limit = 64 * 1024 * 1024

abbrev pub log_format : Str
log_format = text "--format=%H%x00%an%x00%ae%x00%aI%x00%P%x00%B"

abbrev pub plain : List Str → Str → Command
plain options revision = record { options = options; revision = revision ∷ []; paths = [] }

unfoldable pub tree_command : Str → Str → Result Command
tree_command reference path = check_arg reference >>= (λ _. check_arg path >>= (λ _. ok (
    plain (text "ls-tree" ∷ text "-z" ∷ text "--long" ∷ [])
      (if is_empty path then reference else reference ++ (text ":" ++ path)))))

unfoldable pub blob_command : List Str → Str → Str → Result Command
blob_command options reference path =
    check_arg reference
    >>= (λ _. check_arg path >>= (λ _. ok (plain options (reference ++ (text ":" ++ path)))))

abbrev pub limited_to : List Str → Str → Option Str → Result Command
limited_to options reference none = ok (plain options reference)
limited_to options reference (some path) =
    check_arg path
    >>= (λ _. ok (record { options = options; revision = reference ∷ []; paths = path ∷ [] }))

unfoldable pub history_command : List Str → Str → Option Str → Result Command
history_command options reference path =
    check_arg reference >>= (λ _. limited_to options reference path)

unfoldable pub commit_command : List Str → Str → Result Command
commit_command options sha = check_arg sha >>= (λ _. ok (plain options sha))

unfoldable pub rev_parse_command : Str → Result Command
rev_parse_command reference =
    check_arg reference
    >>= (λ _. ok (plain (text "rev-parse" ∷ text "--verify" ∷ []) (reference ++ text "^{commit}")))

abbrev pub or_error {ℓ} : {A : Type ℓ} → Option A → Error → Result A
or_error none e = err e
or_error (some a) e = ok a

abbrev pub as_not_found {ℓ} : {A : Type ℓ} → Result A → Result A
as_not_found (ok a) = ok a
as_not_found (err _) = err not_found

module _ (g : Git) where
  unfoldable pub list_tree : Str → Str → Result (List TreeEntry)
  list_tree reference path = tree_command reference path >>= (λ c.
      g.run_limited c tree_output_limit
      >>= (λ out. ok (parse_tree path (map g.decode (split 0 out)))))

  abbrev pub log_options : ℕ → ℕ → List Str
  log_options skip limit =
      text "log"
      ∷ text "-z"
      ∷ log_format
      ∷ (text "--skip=" ++ g.decimal skip)
      ∷ (text "--max-count=" ++ g.decimal limit)
      ∷ []

  unfoldable pub log : Str → Option Str → ℕ → ℕ → Result (List CommitInfo)
  log reference path skip limit =
      history_command (log_options skip limit) reference path
      >>= (λ c. g.run_limited c log_output_limit >>= (λ out. ok (parse_commits (g.decode out))))

  unfoldable pub attach_latest_commits : Str → List TreeEntry → Result (List TreeEntry)
  attach_latest_commits reference [] = ok []
  attach_latest_commits reference (e ∷ entries) = log reference (some e.path) 0 1 >>= (λ commits.
      attach_latest_commits reference entries
      >>= (λ rest. ok (record e { latest_commit = head? commits } ∷ rest)))

  abbrev pub is_ascii_whitespace : ℕ → Bool
  is_ascii_whitespace c = c == 32 || c == 9 || c == 10 || c == 12 || c == 13

  abbrev pub first_word : List ℕ → List ℕ
  first_word [] = []
  first_word (c ∷ s) = if is_ascii_whitespace c then [] else c ∷ first_word s

  -- The printed size is ASCII, or no number.
  unfoldable pub blob_size : Str → Str → Result ℕ
  blob_size reference path =
      blob_command (text "cat-file" ∷ text "-s" ∷ []) reference path >>= (λ c.
        g.run_limited c 64 >>= (λ out.
          or_error (parse_usize (first_word out))
            (git (text "git cat-file returned an invalid size"))))

  abbrev pub read_sized : Str → Str → ℕ → ℕ → Result (List ℕ)
  read_sized reference path limit size =
      if ltb 0 limit && ltb limit size
      then err (invalid (text "blob exceeds size limit"))
      else blob_command (text "cat-file" ∷ text "blob" ∷ []) reference path
        >>= (λ c. g.run_limited c (if ltb 0 limit then limit else size))

  unfoldable pub read_blob : Str → Str → ℕ → Result (List ℕ)
  read_blob reference path limit = blob_size reference path >>= read_sized reference path limit

  unfoldable pub count_commits : Str → Option Str → Result ℤ
  count_commits reference path =
      history_command (text "rev-list" ∷ text "--count" ∷ []) reference path >>= (λ c.
        g.run_limited c 64 >>= (λ out.
          or_error (parse_i64 (trim (g.decode out)))
            (git (text "git rev-list returned an invalid count"))))

  unfoldable pub commit : Str → Result CommitInfo
  commit sha =
      commit_command (text "log" ∷ text "-z" ∷ log_format ∷ text "--max-count=1" ∷ []) sha >>= (λ c.
        g.run_limited c commit_output_limit
        >>= (λ out. or_error (head? (parse_commits (g.decode out))) not_found))

  unfoldable pub commit_diff : Str → Result (List ℕ)
  commit_diff sha =
      commit_command
        (text "diff-tree" ∷ text "-r" ∷ text "-p" ∷ text "--root" ∷ text "--no-commit-id" ∷ []) sha
      >>= (λ c. g.run_limited c diff_output_limit)

  unfoldable pub for_each_ref : Str → Result (List RefInfo)
  for_each_ref prefix =
      g.run_limited
        (plain
          (text "for-each-ref"
            ∷ text "--format=%(refname:short)%00%(objectname)%00%(*objectname)"
            ∷ [])
          prefix)
        tree_output_limit
      >>= (λ out. ok (parse_refs (g.decode out)))

  abbrev pub branches : Result (List RefInfo)
  branches = for_each_ref (text "refs/heads/")

  abbrev pub tags : Result (List RefInfo)
  tags = for_each_ref (text "refs/tags/")

  unfoldable pub rev_parse : Str → Result Str
  rev_parse reference = rev_parse_command reference >>= (λ c.
      as_not_found (g.run_limited c default_output_limit) >>= (λ out. ok (trim (g.decode out))))
