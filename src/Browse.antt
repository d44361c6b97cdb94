-- ===== src/Browse.antt =====
-- crates/rgit-http/src/handlers/api/repo_browse.rs. The Git of each repository, UTF-8 decoding, base64 and the table
-- of MIME types are arguments; an answer is its data and the content type that it names.
pub mod Readable
use rgit.Common.{
  ℕ, ◌*◌, ◌+◌, ◌-◌, ◌%◌, ◌^◌, Str, text, ◌++◌, Bool, true, false, not, ◌&&◌, ◌||◌, ◌==◌, Option,
  none, some, List, [], ◌∷◌, ℤ, pos, any, drop, find, length, str_eq, take, is_empty, if◌then◌else◌,
}
use rgit.Error.{Error, invalid, git}
use rgit.Result.{Result, ok, err}
use rgit.Perm.{read}
use rgit.Models.{Project}
use rgit.Store.{M, pure, fail, lift, require, ◌>>=◌, ◌>>◌}
use rgit.Auth.Authorize.{authorize_repo}
use rgit.Auth.Identity.{Identity}
use rgit.Locate.{locate}
use rgit.State.{begin_git_operation}
use rgit.Autocreate.{outside}
use rgit.Pagination.{Pagination, from_options, limit, offset, page_of}
use rgit.GitRead
use rgit.GitRead.Output.{TreeEntry, CommitInfo, RefInfo}

abbrev pub blob_json_limit : ℕ
blob_json_limit = 1024 * 1024

abbrev pub raw_limit : ℕ
raw_limit = 64 * 1024 * 1024

unfoldable pub readable_repo : Identity → Str → M Project
readable_repo identity id =
    locate id >>= (λ project. authorize_repo identity.user project read >> pure project)

abbrev pub or_head : Option Str → Str
or_head none = text "HEAD"
or_head (some branch) = branch

unfoldable pub default_ref : Project → Option Str → Str
default_ref project none = or_head project.default_branch
default_ref project (some r) = if is_empty r then or_head project.default_branch else r

pub record TreeQuery : Type 0 where
  pub reference : Option Str
  pub path : Str
  pub page : Option ℕ
  pub per_page : Option ℕ

pub record CommitsQuery : Type 0 where
  pub reference : Option Str
  pub path : Option Str
  pub page : Option ℕ
  pub per_page : Option ℕ

pub record Blob : Type 0 where
  pub path : Str
  pub reference : Str
  pub size : ℕ
  pub binary : Bool
  pub content_base64 : Str

pub record Mime : Type 0 where
  pub kind : Str
  pub subtype : Str
  pub essence : Str

-- What `git archive` is started with.
pub record Archive : Type 0 where
  pub format : Str
  pub content_type : Str
  pub sha : Str
  pub prefix : Str
  pub filename : Str

abbrev pub archive_format : Str → Option (Str × Str)
archive_format format =
    if str_eq format (text "tar.gz") || str_eq format (text "tgz")
    then some (text "tar.gz", text "application/gzip")
    else if str_eq format (text "zip")
    then some (text "zip", text "application/zip")
    else if str_eq format (text "tar")
    then some (text "tar", text "application/x-tar")
    else none

-- Never an HTML type.
unfoldable pub content_type : Mime → Str
content_type guessed =
    if str_eq guessed.kind (text "text") || str_eq guessed.subtype (text "html")
    then text "text/plain; charset=utf-8"
    else guessed.essence

abbrev pub readme_names : List Str
readme_names =
    text "README.md"
    ∷ text "README"
    ∷ text "readme.md"
    ∷ text "README.markdown"
    ∷ text "README.txt"
    ∷ []

abbrev pub is_readme : Str → TreeEntry → Bool
is_readme name e = str_eq e.kind (text "blob") && str_eq e.name name

-- `candidates.iter().find_map(…)`
abbrev pub first_readme : List Str → List TreeEntry → Option TreeEntry
first_readme [] entries = none
first_readme (name ∷ names) entries = elim (find (is_readme name) entries) [
  | some e ↦ some e
  | none ↦ first_readme names entries
]

abbrev pub utf8_or_invalid : Option Str → Result Str
utf8_or_invalid none = err (invalid (text "README is not valid UTF-8"))
utf8_or_invalid (some s) = ok s

-- What all handlers begin with.
abbrev pub browse {ℓ} : {A : Type ℓ} → Identity → Str → (Project → M A) → M A
browse identity id answer =
    readable_repo identity id >>= (λ project. begin_git_operation >> answer project)

-- What each handler does once the repository may be read and a slot is free.
module _ (g : GitRead.Git) where
  abbrev pub page_entries : Project → Str → Pagination → List TreeEntry → M (List TreeEntry × ℕ)
  page_entries project reference page entries =
      lift (GitRead.attach_latest_commits g reference (page_of page entries))
      >>= (λ shown. pure (shown, length entries))

  abbrev pub tree_in : TreeQuery → Project → M (List TreeEntry × ℕ)
  tree_in q project =
      lift (GitRead.list_tree g (default_ref project q.reference) q.path)
      >>= page_entries project (default_ref project q.reference) (from_options q.page q.per_page)

  abbrev pub blob_of : (List ℕ → Str) → Str → Str → List ℕ → Blob
  blob_of encode_base64 path reference bytes = record {
    path = path;
    reference = reference;
    size = length bytes;
    binary = any (λ b. b == 0) bytes;
    content_base64 = encode_base64 bytes;
  }

  abbrev pub blob_in : (List ℕ → Str) → TreeQuery → Project → M Blob
  blob_in encode_base64 q project =
      lift (GitRead.read_blob g (default_ref project q.reference) q.path blob_json_limit)
      >>= (λ bytes. pure (blob_of encode_base64 q.path (default_ref project q.reference) bytes))

  -- The bytes with their content type; X-Content-Type-Options is `nosniff`.
  abbrev pub raw_in : (Str → Mime) → TreeQuery → Project → M (Str × List ℕ)
  raw_in guess q project =
      lift (GitRead.read_blob g (default_ref project q.reference) q.path raw_limit)
      >>= (λ bytes. pure (content_type (guess q.path), bytes))

  -- `page.offset() as u32`
  abbrev pub skipped : Pagination → ℕ
  skipped page = offset page % 2 ^ 32

  abbrev pub commits_in : CommitsQuery → Project → M (List CommitInfo × ℤ)
  commits_in q project =
      lift (GitRead.count_commits g (default_ref project q.reference) q.path) >>= (λ total.
        lift (
          GitRead.log g (default_ref project q.reference) q.path
            (skipped (from_options q.page q.per_page)) (limit (from_options q.page q.per_page)))
        >>= (λ found. pure (found, total)))

  abbrev pub commit_detail_in : Str → Project → M CommitInfo
  commit_detail_in sha project = lift (GitRead.commit g sha)

  abbrev pub commit_diff_in : Str → Project → M (List ℕ)
  commit_diff_in sha project = lift (GitRead.commit_diff g sha)

  abbrev pub branches_in : Project → M (List RefInfo)
  branches_in project = lift (GitRead.branches g)

  abbrev pub tags_in : Project → M (List RefInfo)
  tags_in project = lift (GitRead.tags g)

  abbrev pub archive_of : Project → Str × Str → Str → Archive
  archive_of project (format, content_type) sha = record {
    format = format;
    content_type = content_type;
    sha = sha;
    prefix = project.path ++ (text "-" ++ (take 8 sha ++ text "/"));
    filename = project.path ++ (text "-" ++ (take 8 sha ++ (text "." ++ format)));
  }

  abbrev pub start_archive : Project → Str → Str × Str → M Archive
  start_archive project reference format =
      lift (GitRead.rev_parse g reference)
      >>= (λ sha. outside (git (text "archive")) >> pure (archive_of project format sha))

  abbrev pub archive_in : Option Str → Str → Project → M Archive
  archive_in reference format project =
      require (archive_format format) (invalid (text "format must be tar.gz, zip or tar"))
      >>= start_archive project (default_ref project reference)

  -- Status 204 without a README.
  abbrev pub readme_content :
      (List ℕ → Option Str) → Project → Str → Option TreeEntry → M (Option (Str × Str))
  readme_content utf8 project reference none = pure none
  readme_content utf8 project reference (some entry) =
      lift (GitRead.read_blob g reference entry.path blob_json_limit) >>= (λ bytes.
        lift (utf8_or_invalid (utf8 bytes)) >>= (λ content. pure (some (entry.path, content))))

  abbrev pub readme_in : (List ℕ → Option Str) → TreeQuery → Project → M (Option (Str × Str))
  readme_in utf8 q project =
      lift (GitRead.list_tree g (default_ref project q.reference) []) >>= (λ entries.
        readme_content utf8 project (default_ref project q.reference)
          (first_readme readme_names entries))

module _ (git_of : Project → GitRead.Git) where
  unfoldable pub tree : Identity → Str → TreeQuery → M (List TreeEntry × ℕ)
  tree identity id q = browse identity id (λ p. tree_in (git_of p) q p)

  unfoldable pub blob : (List ℕ → Str) → Identity → Str → TreeQuery → M Blob
  blob encode_base64 identity id q = browse identity id (λ p. blob_in (git_of p) encode_base64 q p)

  unfoldable pub raw : (Str → Mime) → Identity → Str → TreeQuery → M (Str × List ℕ)
  raw guess identity id q = browse identity id (λ p. raw_in (git_of p) guess q p)

  unfoldable pub commits : Identity → Str → CommitsQuery → M (List CommitInfo × ℤ)
  commits identity id q = browse identity id (λ p. commits_in (git_of p) q p)

  unfoldable pub commit_detail : Identity → Str → Str → M CommitInfo
  commit_detail identity id sha = browse identity id (λ p. commit_detail_in (git_of p) sha p)

  unfoldable pub commit_diff : Identity → Str → Str → M (List ℕ)
  commit_diff identity id sha = browse identity id (λ p. commit_diff_in (git_of p) sha p)

  unfoldable pub branches : Identity → Str → M (List RefInfo)
  branches identity id = browse identity id (λ p. branches_in (git_of p) p)

  unfoldable pub tags : Identity → Str → M (List RefInfo)
  tags identity id = browse identity id (λ p. tags_in (git_of p) p)

  unfoldable pub archive : Identity → Str → Option Str → Str → M Archive
  archive identity id reference format =
      browse identity id (λ p. archive_in (git_of p) reference format p)

  unfoldable pub readme :
      (List ℕ → Option Str) → Identity → Str → TreeQuery → M (Option (Str × Str))
  readme utf8 identity id q = browse identity id (λ p. readme_in (git_of p) utf8 q p)
