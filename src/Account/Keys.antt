-- ===== src/Account/Keys.antt =====
-- crates/rgit-http/src/handlers/api/keys.rs, and the statements on `ssh_keys`.
pub mod Registered
use rgit.Common.{
  ℕ, ◌<◌, Str, text, ◌++◌, Bool, true, false, not, ◌&&◌, ◌==◌, Option, none, some, List, [], ◌∷◌,
  any, find, retain, length, str_eq, trim, is_empty, is_some, if◌then◌else◌,
}
use rgit.Error.{db, unique_violation, foreign_key_violation, conflict, not_found}
use rgit.Result.{Result, ok, err}
use rgit.Models.{User, SshKey}
use rgit.Store.{Db, World, M, query, execute, pure, lift, check, ◌>>=◌, ◌>>◌}
use rgit.Tables.Groups.{next_id}
use rgit.SshKey.{ParsedKey, parse_public_key}
use rgit.AuthorizedKeys.{SshConfig, by_id, sync_if_enabled}

-- INSERT INTO ssh_keys … RETURNING *: the fingerprint is unique.
unfoldable pub insert_key : SshKey → Db → Result (SshKey × Db)
insert_key k d =
    if any (λ r. str_eq r.fingerprint_sha256 k.fingerprint_sha256) d.ssh_keys
    then err (db unique_violation)
    else if not (any (λ u. u.id == k.user_id) d.users)
    then err (db foreign_key_violation)
    else (let row = record k { id = next_id (λ (r : SshKey). r.id) d.ssh_keys } in
        ok (row, record d { ssh_keys = row ∷ d.ssh_keys }))

abbrev pub is_own_key : ℕ → ℕ → SshKey → Bool
is_own_key id user_id k = k.id == id && k.user_id == user_id

-- DELETE FROM ssh_keys WHERE id = ? AND user_id = ?, and how many rows it deleted
unfoldable pub delete_key : ℕ → ℕ → Db → Result (ℕ × Db)
delete_key id user_id d = ok (
  length (retain (is_own_key id user_id) d.ssh_keys),
  record d { ssh_keys = retain (λ k. not (is_own_key id user_id k)) d.ssh_keys },
)

unfoldable pub list : User → M (List SshKey)
list user = query (λ d. by_id (retain (λ k. k.user_id == user.id) d.ssh_keys))

pub record CreateKey : Type 0 where
  pub title : Str
  pub key : Str

abbrev pub with_fingerprint : Str → Db → Option SshKey
with_fingerprint fingerprint d = find (λ k. str_eq k.fingerprint_sha256 fingerprint) d.ssh_keys

abbrev pub new_key : User → CreateKey → ParsedKey → SshKey
new_key user req parsed = record {
  id = 0;
  user_id = user.id;
  title = trim (if is_empty (trim req.title) then parsed.comment else req.title);
  key = parsed.normalized;
  fingerprint_sha256 = parsed.fingerprint_sha256;
  last_used_at = none;
}

module _ (config : SshConfig) where
  abbrev pub register : User → CreateKey → ParsedKey → M SshKey
  register user req parsed = query (with_fingerprint parsed.fingerprint_sha256) >>= (λ existing.
      check (not (is_some existing)) (conflict (text "key already registered"))
      >> (execute (insert_key (new_key user req parsed))
          >>= (λ key. sync_if_enabled config >>= (λ _. pure key))))

  unfoldable pub create : User → CreateKey → M SshKey
  create user req = lift (parse_public_key config.codec req.key) >>= register user req

  unfoldable pub delete : User → ℕ → M (Unit {0})
  delete user id = execute (delete_key id user.id) >>= (λ affected.
      check (not (affected == 0)) not_found >> (sync_if_enabled config >>= (λ _. pure tt)))
