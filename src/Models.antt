-- ===== src/Models.antt =====
-- crates/rgit-core/src/models.rs and migrations/*.sql: the rows of the database. Identifiers are
-- SQLite rowids and timestamps are seconds, both as natural numbers.
use rgit.Common.{ℕ, Str, text, Bool, Option, ℤ, str_eq}

pub record User : Type 0 where
  pub id : ℕ
  pub username : Str
  pub email : Str
  pub name : Str
  pub password_hash : Str
  pub is_admin : Bool
  pub state : Str
  pub updated_at : ℕ

abbrev pub active : Str
active = text "active"

abbrev pub blocked : Str
blocked = text "blocked"

abbrev pub is_active : User → Bool
is_active u = str_eq u.state active

pub record Namespace : Type 0 where
  pub id : ℕ
  pub path : Str
  pub name : Str
  pub kind : Str
  pub owner_user_id : Option ℕ
  pub description : Str
  pub updated_at : ℕ

pub record Project : Type 0 where
  pub id : ℕ
  pub namespace_id : ℕ
  pub path : Str
  pub name : Str
  pub description : Str
  pub visibility : ℤ
  pub default_branch : Option Str
  pub archived : Bool
  pub lfs_enabled : Bool
  pub disk_id : ℕ
  pub disk_hash : Str
  pub forked_from_project_id : Option ℕ
  pub updated_at : ℕ

pub record ProjectMember : Type 0 where
  pub project_id : ℕ
  pub user_id : ℕ
  pub access_level : ℤ

pub record GroupMember : Type 0 where
  pub namespace_id : ℕ
  pub user_id : ℕ
  pub access_level : ℤ

pub record SshKey : Type 0 where
  pub id : ℕ
  pub user_id : ℕ
  pub title : Str
  pub key : Str
  pub fingerprint_sha256 : Str
  pub last_used_at : Option ℕ

-- `scopes` is the text of a JSON array.
pub record PersonalAccessToken : Type 0 where
  pub id : ℕ
  pub user_id : ℕ
  pub name : Str
  pub token_hash : Str
  pub scopes : Str
  pub expires_at : Option ℕ
  pub last_used_at : Option ℕ
  pub revoked : Bool

pub record Session : Type 0 where
  pub id : Str
  pub user_id : ℕ
  pub created_at : ℕ
  pub expires_at : ℕ
  pub last_seen_at : Option ℕ
  pub ip : Option Str
  pub user_agent : Option Str

pub record LfsObject : Type 0 where
  pub id : ℕ
  pub oid : Str
  pub size : ℤ

pub record ProjectLfsObject : Type 0 where
  pub project_id : ℕ
  pub lfs_object_id : ℕ

-- A row of `lfs_auth_tokens`.
pub record LfsAuthToken : Type 0 where
  pub token_hash : Str
  pub user_id : ℕ
  pub project_id : ℕ
  pub can_write : Bool
  pub expires_at : ℕ
