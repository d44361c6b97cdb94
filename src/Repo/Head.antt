-- ===== src/Repo/Head.antt =====
-- `refresh_head_branch_after_push` of crates/rgit-git/src/repo.rs. Git and its repository are an argument; what its manual
-- says of the commands is in `Laws`.
pub mod Refreshed
use rgit.Common.{
  ℕ, Str, text, ◌++◌, ◌≡◌, Bool, true, false, not, ◌&&◌, Option, none, some, List, [], ◌∷◌, Memᴰ,
  find, map, retain, is_empty, str_eq, trim, split, if◌then◌else◌,
}
use rgit.Error.{Error, git}
use rgit.Result.{Result, ok, err}
use rgit.GitRead.Output.{lines}

pub record Git : Type 1 where
  pub Repository : Type 0
  pub run : List Str → Repository → Result (List ℕ) × Repository
  pub decode : List ℕ → Str

-- An action on the repository.
module _ (g : Git) where
  open g use {Repository, run, decode}

  abbrev pub G : Type 0 → Type 0
  G A = Repository → Result A × Repository

  abbrev pub returning : {A : Type 0} → A → G A
  returning a r = (ok a, r)

  abbrev pub bound : {A B : Type 0} → Result A × Repository → (A → G B) → Result B × Repository
  bound (ok a, r) f = f a r
  bound (err e, r) f = (err e, r)

  abbrev pub then_do : {A B : Type 0} → G A → (A → G B) → G B
  then_do m f r = bound (m r) f

  abbrev pub head_command : List Str
  head_command = text "symbolic-ref" ∷ text "--short" ∷ text "HEAD" ∷ []

  abbrev pub set_command : Str → List Str
  set_command branch = text "symbolic-ref" ∷ text "HEAD" ∷ (text "refs/heads/" ++ branch) ∷ []

  abbrev pub show_command : Str → List Str
  show_command branch =
      text "show-ref" ∷ text "--verify" ∷ text "--quiet" ∷ (text "refs/heads/" ++ branch) ∷ []

  abbrev pub recent_command : List Str
  recent_command =
      text "for-each-ref"
      ∷ text "--sort=-committerdate"
      ∷ text "--format=%(refname:short)"
      ∷ text "refs/heads"
      ∷ []

  abbrev pub short_name : Result (List ℕ) × Repository → Result (Option Str) × Repository
  short_name (ok out, r) = (ok (some (trim (decode out))), r)
  short_name (err _, r) = (ok none, r)

  unfoldable pub head_branch : G (Option Str)
  head_branch r = short_name (run head_command r)

  unfoldable pub set_head_branch : Str → G (Unit {0})
  set_head_branch branch = then_do (run (set_command branch)) (λ _. returning tt)

  abbrev pub shown : Result (List ℕ) × Repository → Result Bool × Repository
  shown (ok _, r) = (ok true, r)
  shown (err (git m), r) = (ok false, r)
  shown (err e, r) = (err e, r)

  unfoldable pub branch_exists : Str → G Bool
  branch_exists branch r = shown (run (show_command branch) r)

  abbrev pub branch_names : List ℕ → List Str
  branch_names out = retain (λ b. not (is_empty b)) (map trim (lines (decode out)))

  unfoldable pub branches_by_recent_commit : G (List Str)
  branches_by_recent_commit = then_do (run recent_command) (λ out. returning (branch_names out))

  abbrev pub is_current : Option Str → Str → Bool
  is_current none branch = false
  is_current (some c) branch = str_eq c branch

  abbrev pub most_recent : Option Str → G (Option Str)
  most_recent current =
      then_do branches_by_recent_commit
        (λ names. returning (find (λ b. not (is_current current b)) names))

  abbrev pub if_exists : Str → G (Option Str) → Bool → G (Option Str)
  if_exists branch next found = if found then returning (some branch) else next

  abbrev pub prefer : Option Str → Str → G (Option Str) → G (Option Str)
  prefer current branch next =
      if is_current current branch
      then next
      else then_do (branch_exists branch) (if_exists branch next)

  -- `for branch in ["master", "main"]`, and then the most recent branch
  unfoldable pub fallback_branch : Option Str → G (Option Str)
  fallback_branch current =
      prefer current (text "master") (prefer current (text "main") (most_recent current))

  abbrev pub moved_to : Option Str → G (Option Str)
  moved_to none = returning none
  moved_to (some branch) = then_do (set_head_branch branch) (λ _. returning (some branch))

  abbrev pub move_head : Option Str → G (Option Str)
  move_head head = then_do (fallback_branch head) moved_to

  abbrev pub kept_or_moved : Str → Bool → G (Option Str)
  kept_or_moved head found = if found then returning (some head) else move_head (some head)

  abbrev pub refresh : Option Str → G (Option Str)
  refresh none = move_head none
  refresh (some head) = then_do (branch_exists head) (kept_or_moved head)

  unfoldable pub refresh_head_branch_after_push : G (Option Str)
  refresh_head_branch_after_push = then_do head_branch refresh

  -- The short form of a branch's name: it is longer where another reference, such as a tag, has the name too.
  abbrev pub short : (ambiguous : Bool) → Str → Str
  short true branch = text "heads/" ++ branch
  short false branch = branch

  -- What the manual says of the commands that succeed: `heads` are the branches of the repository, `points_to` is the
  -- branch that HEAD names (a push moves no HEAD, and the code points it at branches only), and `is_ambiguous` says
  -- whether another reference has the short name of a branch.
  pub record Laws : Type 0 where
    pub heads : Repository → List Str
    pub points_to : Repository → Option Str
    pub is_ambiguous : Repository → Str → Bool
    pub head_read :
        (r r' : Repository) (out : List ℕ)
        → run head_command r ≡ (ok out, r')
        → (r' ≡ r)
          × (b : Str) × (points_to r ≡ some b)
          × (trim (decode out) ≡ short (is_ambiguous r b) b)
    pub head_unread : (r r' : Repository) (e : Error) → run head_command r ≡ (err e, r') → r' ≡ r
    pub branch_shown :
        (b : Str) (r r' : Repository) (out : List ℕ)
        → run (show_command b) r ≡ (ok out, r')
        → (r' ≡ r) × Memᴰ b (heads r)
    pub branch_not_shown :
        (b : Str) (r r' : Repository) (e : Error) → run (show_command b) r ≡ (err e, r') → r' ≡ r
    pub listed :
        (r r' : Repository) (out : List ℕ)
        → run recent_command r ≡ (ok out, r')
        → (r' ≡ r)
          × ((name : Str)
              → Memᴰ name (branch_names out)
              → (b : Str) × Memᴰ b (heads r) × (name ≡ short (is_ambiguous r b) b))
    pub head_set :
        (b : Str) (r r' : Repository) (out : List ℕ)
        → run (set_command b) r ≡ (ok out, r')
        → (points_to r' ≡ some b) × (heads r' ≡ heads r)
