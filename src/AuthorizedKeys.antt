-- ===== src/AuthorizedKeys.antt =====
-- crates/rgit-core/src/auth/authorized_keys.rs: the file by which sshd maps a public key to a forced command. The
-- steps of `atomic_write` up to the rename are one outside call, the sync of the directory another; the temporary
-- file is not part of the state. `decimal` prints a number.
pub mod Listed
pub mod Ordered
use rgit.Common.{
  ℕ, ◌<◌, Str, text, ◌++◌, Bool, true, false, ◌&&◌, ◌==◌, ltb, List, [], ◌∷◌, any, retain, length,
  if◌then◌else◌,
}
use rgit.Error.{io}
use rgit.Result.{Result, ok, err}
use rgit.Models.{User, SshKey, is_active}
use rgit.Store.{Db, World, M, query, pure, lift, ◌>>=◌, ◌>>◌}
use rgit.Autocreate.{outside}
use rgit.SshKey.{ParsedKey, Codec, parse_public_key}

pub record SshConfig : Type 0 where
  pub enabled : Bool
  pub shell_path : Str
  pub shell_config : Str
  pub codec : Codec
  pub decimal : ℕ → Str

-- JOIN users u ON u.id = k.user_id WHERE u.state = 'active'
abbrev pub has_active_user : Db → SshKey → Bool
has_active_user d k = any (λ u. u.id == k.user_id && is_active u) d.users

-- ORDER BY k.id
abbrev pub insert_key : SshKey → List SshKey → List SshKey
insert_key k [] = k ∷ []
insert_key k (l ∷ ls) = if ltb l.id k.id then l ∷ insert_key k ls else k ∷ l ∷ ls

abbrev pub by_id : List SshKey → List SshKey
by_id [] = []
by_id (k ∷ ks) = insert_key k (by_id ks)

abbrev pub active_keys : Db → List SshKey
active_keys d = by_id (retain (has_active_user d) d.ssh_keys)

unfoldable pub write_file : Str → M (Unit {0})
write_file body w = (ok tt, record w { authorized_keys = body })

unfoldable pub atomic_write : Str → M (Unit {0})
atomic_write body = outside io >> write_file body >> outside io

module _ (config : SshConfig) where
  unfoldable pub key_line : ℕ → ParsedKey → Str
  key_line key_id key =
      text "command=\""
      ++ (config.shell_path
          ++ (text " --config "
              ++ (config.shell_config
                  ++ (text " --key-id "
                      ++ (config.decimal key_id
                          ++ (text
                                "\",no-port-forwarding,no-X11-forwarding,no-agent-forwarding,no-pty "
                              ++ (key.normalized ++ text "\n")))))))

  abbrev pub with_line : ℕ → Result ParsedKey → Result Str → Result Str
  with_line key_id (err e) rest = err e
  with_line key_id (ok key) (err e) = err e
  with_line key_id (ok key) (ok rest) = ok (key_line key_id key ++ rest)

  -- The loop over the rows; the first key that does not parse ends it.
  unfoldable pub body_of : List SshKey → Result Str
  body_of [] = ok []
  body_of (k ∷ ks) = with_line k.id (parse_public_key config.codec k.key) (body_of ks)

  unfoldable pub sync : M ℕ
  sync =
      query active_keys
      >>= (λ rows. lift (body_of rows) >>= (λ body. atomic_write body >> pure (length rows)))

  unfoldable pub sync_if_enabled : M ℕ
  sync_if_enabled = if config.enabled then sync else pure 0
