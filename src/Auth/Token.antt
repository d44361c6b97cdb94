-- ===== src/Auth/Token.antt =====
-- crates/rgit-core/src/auth/token.rs, session.rs and lfs_token.rs: the credentials that are stored
-- as digests. SHA-256 (in hex), the JSON of the scopes and the clock's offset are arguments.
pub mod Scopes
pub mod Lookup
use rgit.Common.{
  ℕ, suc, ◌+◌, ◌*◌, Str, text, ◌++◌, Bool, true, false, not, ◌&&◌, ◌||◌, ◌==◌, ltb, leb, length,
  Option, none, some, List, [], ◌∷◌, find, retain, any, map, is_some, str_eq, if◌then◌else◌,
}
use rgit.Error.{Error, invalid, db, unique_violation}
use rgit.Result.{Result, ok, err}
use rgit.Models.{User, PersonalAccessToken, Session, LfsAuthToken, is_active}
use rgit.Store.{Db, World, M, query, execute, pure, fail, ◌>>=◌, ◌>>◌}

pub data Scope : Type 0 where
  api read_api read_repository write_repository : Scope

abbrev pub same_scope : Scope → Scope → Bool
same_scope api api = true
same_scope read_api read_api = true
same_scope read_repository read_repository = true
same_scope write_repository write_repository = true
same_scope _ _ = false

-- `matches!((s, needed), …)`
abbrev pub implies : Scope → Scope → Bool
implies api needed = true
implies write_repository read_repository = true
implies read_api read_api = true
implies _ _ = false

unfoldable pub scopes_allow : List Scope → Scope → Bool
scopes_allow scopes needed = any (λ s. same_scope s needed || implies s needed) scopes

abbrev pub token_prefix : Str
token_prefix = text "rgit_"

abbrev pub lfs_token_prefix : Str
lfs_token_prefix = text "rgit_lfs_"

-- The next random text of the generator.
unfoldable pub draw : M Str
draw w = (ok (w.secrets w.drawn), record w { drawn = suc w.drawn })

unfoldable pub generate_token : M Str
unfolding draw
generate_token = do body ← draw; pure (token_prefix ++ body)

-- `expires_at IS NULL OR expires_at > datetime('now')`
abbrev pub not_expired : ℕ → Option ℕ → Bool
not_expired now none = true
not_expired now (some t) = ltb now t

abbrev pub now : M ℕ
now w = (ok w.now, w)

-- How many rows were deleted.
unfoldable pub purge_expired : M ℕ
purge_expired = do
  t ← now
  execute (λ d. ok (
    length (retain (λ s. leb s.expires_at t) d.sessions),
    record d { sessions = retain (λ s. not (leb s.expires_at t)) d.sessions },
  ))

-- lfs_token::purge_expired
unfoldable pub purge_expired_lfs_tokens : M ℕ
purge_expired_lfs_tokens = do
  t ← now
  execute (λ d. ok (
    length (retain (λ r. leb r.expires_at t) d.lfs_auth_tokens),
    record d { lfs_auth_tokens = retain (λ r. not (leb r.expires_at t)) d.lfs_auth_tokens },
  ))

abbrev pub same_session : Session → List Session → Bool
same_session s rows = any (λ r. str_eq r.id s.id) rows

-- `id` is the primary key of `sessions`.
abbrev insert_session : Session → Db → Result (Unit {0} × Db)
insert_session s d =
    if same_session s d.sessions
    then err (db unique_violation)
    else ok (tt, record d { sessions = s ∷ d.sessions })

abbrev pub active_user : ℕ → Db → Option User
active_user id d = find (λ u. u.id == id && is_active u) d.users

abbrev insert_lfs_token : LfsAuthToken → Db → Result (Unit {0} × Db)
insert_lfs_token row d =
    if any (λ r. str_eq r.token_hash row.token_hash) d.lfs_auth_tokens
    then err (db unique_violation)
    else ok (tt, record d { lfs_auth_tokens = row ∷ d.lfs_auth_tokens })

module _ (digest : Str → Str) where
  abbrev pub token_matches : ℕ → Str → PersonalAccessToken → Bool
  token_matches t raw row =
      str_eq row.token_hash (digest raw) && not row.revoked && not_expired t row.expires_at

  unfoldable pub find_active_token : Str → M (Option PersonalAccessToken)
  find_active_token raw = do t ← now; query (λ d. find (token_matches t raw) d.tokens)

  abbrev pub session_matches : ℕ → Str → Session → Bool
  session_matches t raw s = str_eq s.id (digest raw) && ltb t s.expires_at

  unfoldable pub create_session : ℕ → ℕ → Option Str → Option Str → M Str
  unfolding draw
  create_session user_id ttl_hours ip user_agent = do
    raw ← draw
    t ← now
    execute (
        insert_session (record {
          id = digest raw;
          user_id = user_id;
          created_at = t;
          expires_at = t + ttl_hours * 3600;
          last_seen_at = none;
          ip = ip;
          user_agent = user_agent;
        }))
    pure raw

  abbrev touch : ℕ → Str → Db → Result (Unit {0} × Db)
  touch t raw d = ok (
    tt,
    record d {
      sessions =
          map (λ s. if str_eq s.id (digest raw) then record s { last_seen_at = some t } else s)
            d.sessions;
    },
  )

  abbrev seen : ℕ → Str → Session → Option User → M (Option (Session × User))
  seen t raw session none = pure none
  seen t raw session (some user) = do execute (touch t raw); pure (some (session, user))

  abbrev with_session : ℕ → Str → Option Session → M (Option (Session × User))
  with_session t raw none = pure none
  with_session t raw (some session) = do
    user ← query (active_user session.user_id)
    seen t raw session user

  unfoldable pub resolve_session : Str → M (Option (Session × User))
  resolve_session raw = do
    t ← now
    session ← query (λ d. find (session_matches t raw) d.sessions)
    with_session t raw session

  unfoldable pub destroy_session : Str → M (Unit {0})
  destroy_session raw = execute (λ d.
      ok (tt, record d { sessions = retain (λ s. not (str_eq s.id (digest raw))) d.sessions }))

  unfoldable pub issue_lfs_token : ℕ → ℕ → Bool → ℕ → M Str
  unfolding draw
  issue_lfs_token user_id project_id can_write ttl_seconds = do
    random ← draw
    t ← now
    execute (
        insert_lfs_token (record {
          token_hash = digest (lfs_token_prefix ++ random);
          user_id = user_id;
          project_id = project_id;
          can_write = can_write;
          expires_at = t + ttl_seconds;
        }))
    pure (lfs_token_prefix ++ random)

  abbrev pub lfs_token_matches : ℕ → Str → LfsAuthToken → Bool
  lfs_token_matches t raw row = str_eq row.token_hash (digest raw) && ltb t row.expires_at

  unfoldable pub find_lfs_token : Str → M (Option LfsAuthToken)
  find_lfs_token raw = do t ← now; query (λ d. find (lfs_token_matches t raw) d.lfs_auth_tokens)
