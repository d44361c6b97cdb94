-- ===== src/Repo/Head/Refreshed.antt =====
-- HEAD names a branch that is there.
use rgit.Common.{Str, ◌≡◌, false, Option, some, Memᴰ}
use rgit.Result.{Result, ok}
use rgit.Repo.Head.{Git, G, Laws}

module _ (g : Git) (laws : Laws g) where
  open g use {Repository, run, decode}
  open laws use {
    heads, points_to, is_ambiguous, head_read, head_unread, branch_shown, branch_not_shown, listed,
    head_set,
  }

  -- No other reference has the name of a branch, or of the branch that HEAD names.
  pub record IsUnambiguous (r : Repository) : Type 0 where
    pub branches : (b : Str) → Memᴰ b (heads r) → is_ambiguous r b ≡ false
    pub head : (b : Str) → points_to r ≡ some b → is_ambiguous r b ≡ false

  -- The action changes nothing, and what it finds is a branch.
  abbrev Finds : G g (Option Str) → Type 0
  Finds m =
      (r r' : Repository) (o : Option Str)
      → IsUnambiguous r
      → m r ≡ (ok o, r')
      → (r' ≡ r) × ((b : Str) → o ≡ some b → Memᴰ b (heads r))

  -- HEAD names the branch, which is one of the unchanged branches.
  abbrev pub NamesBranch : Repository → Repository → Str → Type 0
  NamesBranch r r' b = Memᴰ b (heads r') × (points_to r' ≡ some b) × (heads r' ≡ heads r)
