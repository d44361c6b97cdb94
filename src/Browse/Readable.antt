-- ===== src/Browse/Readable.antt =====
-- Who reads a repository through the browsing routes.
use rgit.Common.{ℕ, ◌≡◌, refl, sym, ap, ◌∙◌, subst, Str, Option, List, arith}
use rgit.Result.{Result, ok, err}
use rgit.Perm.{read}
use rgit.Models.{Project}
use rgit.Store.{Db, World, M, continue, pure, ◌>>◌}
use rgit.Store.Calls.{bind-eq-ok}
use rgit.Auth.Authorize.{authorize_repo}
use rgit.Auth.Authorize.Policy.{May, authorize_repo_sound}
use rgit.Auth.Identity.{Identity}
use rgit.Locate.{locate}
use rgit.Locate.Named.{locate-Reads}
use rgit.State.{begin_git_operation}
use rgit.GitRead
use rgit.Browse.{
  readable_repo, browse, TreeQuery, CommitsQuery, Mime, tree, blob, raw, commits, commit_detail,
  commit_diff, branches, tags, archive, readme, tree_in, blob_in, raw_in, commits_in,
  commit_detail_in, commit_diff_in, branches_in, tags_in, archive_in, readme_in,
}

readable_repo-May :
    (identity : Identity) (id : Str) (p : Project) (w v : World)
    → readable_repo identity id w ≡ (ok p, v)
    → May w.db identity.user p read
unfolding readable_repo
readable_repo-May identity id p w v h =
    let check_it = λ (q : Project). authorize_repo identity.user q read >> pure q in
    let (q, x, a, b) = bind-eq-ok (locate id) check_it w h in
    let (_, y, c, d) = bind-eq-ok (authorize_repo identity.user q read) (λ _. pure q) x b in
    let same : q ≡ p = ground arith in
    let read_only = (locate-Reads id).at w in
    let kept : x.db ≡ w.db = ap (λ (r : Result Project × World). r.1.db) (sym a) ∙ read_only.db in
    subst (λ (d : Db). May d identity.user p read) kept
      (subst (λ r. May x.db identity.user r read) same
        (authorize_repo_sound q read identity.user x y c))

module _ (git_of git_of' : Project → GitRead.Git) where
  -- Two worlds of repositories that are the same where the caller may read.
  abbrev pub Agree : Identity → World → Type 0
  Agree identity w = (p : Project) → May w.db identity.user p read → git_of p ≡ git_of' p

  module _ {ℓ} {A : Type ℓ} where
    continue-same :
        (r : Result Project × World) (answer : GitRead.Git → Project → M A)
        → ((p : Project) → r.0 ≡ ok p → git_of p ≡ git_of' p)
        → continue r (λ p. begin_git_operation >> answer (git_of p) p)
          ≡ continue r (λ p. begin_git_operation >> answer (git_of' p) p)
    continue-same (ok p, x) answer same =
        ap (λ g. (begin_git_operation >> answer g p) x) (same p refl)
    continue-same (err e, x) answer same = refl

    browse-same :
        (identity : Identity) (id : Str) (answer : GitRead.Git → Project → M A) (w : World)
        → Agree identity w
        → browse identity id (λ p. answer (git_of p) p) w
          ≡ browse identity id (λ p. answer (git_of' p) p) w
    browse-same identity id answer w agree =
        continue-same (readable_repo identity id w) answer (λ p e. agree p (
          readable_repo-May identity id p w (readable_repo identity id w).1
            (ap (λ (r : Result Project). (r, (readable_repo identity id w).1)) e)))

  -- Whatever calls fail: what a caller gets from the browsing routes does not depend on what any repository holds
  -- that the policy does not let the caller read.
  pub handlers-confidential :
      (identity : Identity) (id sha format : Str) (q : TreeQuery) (c : CommitsQuery)
      (r : Option Str) (encode_base64 : List ℕ → Str) (guess : Str → Mime)
      (utf8 : List ℕ → Option Str) (w : World)
      → Agree identity w
      → (tree git_of identity id q w ≡ tree git_of' identity id q w)
        × (blob git_of encode_base64 identity id q w ≡ blob git_of' encode_base64 identity id q w)
        × (raw git_of guess identity id q w ≡ raw git_of' guess identity id q w)
        × (commits git_of identity id c w ≡ commits git_of' identity id c w)
        × (commit_detail git_of identity id sha w ≡ commit_detail git_of' identity id sha w)
        × (commit_diff git_of identity id sha w ≡ commit_diff git_of' identity id sha w)
        × (branches git_of identity id w ≡ branches git_of' identity id w)
        × (tags git_of identity id w ≡ tags git_of' identity id w)
        × (archive git_of identity id r format w ≡ archive git_of' identity id r format w)
        × (readme git_of utf8 identity id q w ≡ readme git_of' utf8 identity id q w)
  unfolding tree blob raw commits commit_detail commit_diff branches tags archive readme
  handlers-confidential identity id sha format q c r encode_base64 guess utf8 w agree = (
    browse-same identity id (λ g. tree_in g q) w agree,
    browse-same identity id (λ g. blob_in g encode_base64 q) w agree,
    browse-same identity id (λ g. raw_in g guess q) w agree,
    browse-same identity id (λ g. commits_in g c) w agree,
    browse-same identity id (λ g. commit_detail_in g sha) w agree,
    browse-same identity id (λ g. commit_diff_in g sha) w agree,
    browse-same identity id (λ g. branches_in g) w agree,
    browse-same identity id (λ g. tags_in g) w agree,
    browse-same identity id (λ g. archive_in g r format) w agree,
    browse-same identity id (λ g. readme_in g utf8 q) w agree,
  )
