-- ===== src/Store.antt =====
-- The state that the handlers share, and the actions on it: the SQLite database of
-- crates/rgit-core/migrations, read and written through sqlx. A handler is an action of `M`.
-- `fails n` says whether the n-th call of SQLite, git or the file system fails for a reason outside
-- the program (a lock, an I/O error); every theorem is about all such oracles unless it assumes one. A handler runs without
-- other handlers between its calls.
pub mod Calls
pub mod Ends
pub mod Reads
pub mod Starts
use rgit.Common.{ℕ, suc, Str, Bool, true, false, List, Option, none, some, ◌≡◌, refl, if◌then◌else◌}
use rgit.Error.{Error, DbError, db, unavailable}
use rgit.Result.{Result, ok, err}
use rgit.Throttle.{Failures}
use rgit.Protocol.{Service}
use rgit.Models.{
  User, Namespace, Project, ProjectMember, GroupMember, SshKey, PersonalAccessToken, Session,
  LfsObject, ProjectLfsObject, LfsAuthToken,
}

pub record Db : Type 0 where
  pub users : List User
  pub namespaces : List Namespace
  pub projects : List Project
  pub project_members : List ProjectMember
  pub group_members : List GroupMember
  pub ssh_keys : List SshKey
  pub tokens : List PersonalAccessToken
  pub sessions : List Session
  pub lfs_objects : List LfsObject
  pub project_lfs_objects : List ProjectLfsObject
  pub lfs_auth_tokens : List LfsAuthToken
  pub disk_ids : List ℕ

pub record World : Type 0 where
  pub db : Db
  pub now : ℕ
  pub fails : ℕ → Bool
  pub calls : ℕ
  -- the login throttle, and the random secrets still to be drawn
  pub failures : Failures
  pub secrets : ℕ → Str
  pub drawn : ℕ
  -- the repository directories on disk, and whether no Git slot comes free in time
  pub repos : List Str
  pub git_busy : Bool
  -- the stored LFS objects: their bytes by oid
  pub lfs_files : List (Str × List ℕ)
  -- the text of sshd's authorized_keys file
  pub authorized_keys : Str
  -- the services of Git that forced commands have started, or tried to start, the last one first
  pub started : List (Service × Project)

abbrev pub M {ℓ} : Type ℓ → Type ℓ
M A = World → Result A × World

module _ {ℓ κ} {A : Type ℓ} {B : Type κ} where
  abbrev pub continue : Result A × World → (A → M B) → Result B × World
  continue (ok a, w) f = f a w
  continue (err e, w) f = (err e, w)

  infixl 5 ◌>>=◌
  abbrev pub ◌>>=◌ : M A → (A → M B) → M B
  ◌>>=◌ m f w = continue (m w) f

infixl 5 ◌>>◌
abbrev pub ◌>>◌ {ℓ} : {B : Type ℓ} → M (Unit {0}) → M B → M B
m >> n = m >>= λ _. n

module _ {ℓ} {A : Type ℓ} where
  abbrev pub pure : A → M A
  pure a w = (ok a, w)

  abbrev pub fail : Error → M A
  fail e w = (err e, w)

  abbrev pub lift : Result A → M A
  lift r w = (r, w)

  -- A SELECT.
  unfoldable pub query : (Db → A) → M A
  query f w = (
    if w.fails w.calls then err (db unavailable) else ok (f w.db),
    record w { calls = suc w.calls },
  )

  abbrev pub settle : Result (A × Db) → World → Result A × World
  settle (ok (a, d)) w = (ok a, record w { db = d; calls = suc w.calls })
  settle (err e) w = (err e, record w { calls = suc w.calls })

  -- An INSERT, UPDATE or DELETE, which a constraint or a trigger may refuse.
  unfoldable pub execute : (Db → Result (A × Db)) → M A
  execute f w =
      if w.fails w.calls
      then (err (db unavailable), record w { calls = suc w.calls })
      else settle (f w.db) w

  abbrev pub rollback : Db → Result A × World → Result A × World
  rollback d (ok a, w) =
      if w.fails w.calls
      then (err (db unavailable), record w { db = d; calls = suc w.calls })
      else (ok a, record w { calls = suc w.calls })
  rollback d (err e, w) = (err e, record w { db = d })

  -- BEGIN, the body, COMMIT; an error on the way rolls everything back.
  unfoldable pub transaction : M A → M A
  transaction m w =
      if w.fails w.calls
      then (err (db unavailable), record w { calls = suc w.calls })
      else rollback w.db (m (record w { calls = suc w.calls }))

-- An error turned into another: `map_err`.
module _ {ℓ} {A : Type ℓ} where
  abbrev pub map_error : (Error → Error) → Result A × World → Result A × World
  map_error f (ok a, w) = (ok a, w)
  map_error f (err e, w) = (err (f e), w)

  abbrev pub map_err : (Error → Error) → M A → M A
  map_err f m w = map_error f (m w)

-- Option::ok_or
abbrev pub require {ℓ} : {A : Type ℓ} → Option A → Error → M A
require none e = fail e
require (some a) e = pure a

abbrev pub check : Bool → Error → M (Unit {0})
check true e = pure tt
check false e = fail e
