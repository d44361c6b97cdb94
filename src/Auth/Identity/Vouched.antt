-- ===== src/Auth/Identity/Vouched.antt =====
-- The row of the database, and the secret of the request, that vouch for an identity.
use rgit.Common.{
  ℕ, suc, ◌<◌, ◌≡◌, refl, inl, inr, Str, Bool, true, false, ◌&&◌, ◌==◌, Option, none, some, List,
  find, str_eq_iff, nocase, if◌then◌else◌, arith, Option-cases, Bool-cases, Memᴰ, find-Mem,
}
use rgit.Result.{ok}
use rgit.Models.{User, PersonalAccessToken, Session, LfsAuthToken, is_active}
use rgit.Store.{World, query, execute}
use rgit.Throttle
use rgit.Auth.Token.{
  Scope, resolve_session, active_user, token_matches, session_matches, lfs_token_matches,
  not_expired,
}
use rgit.Auth.Password.{verify_password, verify_password_async}
use rgit.Auth.Identity.Presented.{LogsIn, SendsCookie, Presents}
use rgit.Auth.Identity.{
  session, basic, token, lfs_token, Identity, nobody, Crypto, Headers, AuthConfig, authenticate_pat,
  authenticate_lfs_token, by_password, record_failures, by_cookie,
}

abbrev pub IsActiveUser : World → ℕ → User → Type 0
IsActiveUser w id u = Memᴰ u w.db.users × (u.id ≡ id) × (is_active u ≡ true)

-- The ways to be somebody, each with the row that vouches for it.
pub data Authentic (crypto : Crypto) (hs : Headers) (w : World) (i : Identity) : Type 0 where
  as_nobody : i ≡ nobody → Authentic crypto hs w i
  by_token :
      (raw : Str) (row : PersonalAccessToken) (u : User) (scopes : List Scope)
      → Presents crypto hs raw
      → Memᴰ row w.db.tokens
      → row.token_hash ≡ crypto.digest raw
      → row.revoked ≡ false
      → not_expired w.now row.expires_at ≡ true
      → IsActiveUser w row.user_id u
      → crypto.parse_scopes row.scopes ≡ some scopes
      → i ≡ record { user = some u; method = some (token scopes) }
      → Authentic crypto hs w i
  by_lfs_token :
      (login raw : Str) (row : LfsAuthToken) (u : User)
      → LogsIn crypto hs login raw
      → nocase u.username login ≡ true
      → Memᴰ row w.db.lfs_auth_tokens
      → row.token_hash ≡ crypto.digest raw
      → w.now < row.expires_at
      → IsActiveUser w row.user_id u
      → i ≡ record { user = some u; method = some (lfs_token row.project_id row.can_write) }
      → Authentic crypto hs w i
  by_session :
      (raw : Str) (row : Session) (u : User)
      → SendsCookie hs raw
      → Memᴰ row w.db.sessions
      → row.id ≡ crypto.digest raw
      → w.now < row.expires_at
      → IsActiveUser w row.user_id u
      → i ≡ record { user = some u; method = some session }
      → Authentic crypto hs w i
  with_password :
      (login secret : Str) (u : User)
      → LogsIn crypto hs login secret
      → nocase u.username login ≡ true
      → Memᴰ u w.db.users
      → is_active u ≡ true
      → verify_password crypto.bcrypt secret u.password_hash ≡ true
      → i ≡ record { user = some u; method = some basic }
      → Authentic crypto hs w i

active_user_sound :
    (w : World) (id : ℕ) (u : User) → active_user id w.db ≡ some u → IsActiveUser w id u
active_user_sound w id u h =
    let (m, t) = find-Mem _ w.db.users u h in (m, ground arith, ground arith)

module _ (crypto : Crypto) (victim : Throttle.Failures → Option Str) (hs : Headers) where
  pub pat-Authentic :
      (raw : Str) (w v : World) (i : Identity)
      → Presents crypto hs raw
      → authenticate_pat crypto victim raw w ≡ (ok i, v)
      → Authentic crypto hs w i
  unfolding authenticate_pat query execute
  pat-Authentic raw w v i sent h =
      elim (Option-cases (find (token_matches crypto.digest w.now raw) w.db.tokens)) [
        | inl e ↦ as_nobody (ground arith)
        | inr (row, e) ↦ elim (Option-cases (active_user row.user_id w.db)) [
          | inl e' ↦ as_nobody (ground arith)
          | inr (u, e') ↦ elim (Option-cases (crypto.parse_scopes row.scopes)) [
            | inl e'' ↦ absurd (ground arith)
            | inr (scopes, e'') ↦
                let (m, t) = find-Mem (token_matches crypto.digest w.now raw) w.db.tokens row e in
                by_token raw row u scopes sent m
                  (ground (arith, str_eq_iff row.token_hash (crypto.digest raw))) (ground arith)
                  (ground arith) (active_user_sound w row.user_id u e') e'' (ground arith)
          ]
        ]
      ]

  abbrev lfs_user : LfsAuthToken → Str → User → Bool
  lfs_user t login u = u.id == t.user_id && nocase u.username login && is_active u

  pub lfs-Authentic :
      (login raw : Str) (w v : World) (i : Identity)
      → LogsIn crypto hs login raw
      → authenticate_lfs_token crypto victim login raw w ≡ (ok i, v)
      → Authentic crypto hs w i
  unfolding authenticate_lfs_token query
  lfs-Authentic login raw w v i sent h =
      elim (Option-cases (find (lfs_token_matches crypto.digest w.now raw) w.db.lfs_auth_tokens)) [
        | inl e ↦ as_nobody (ground arith)
        | inr (row, e) ↦ elim (Option-cases (find (lfs_user row login) w.db.users)) [
          | inl e' ↦ as_nobody (ground arith)
          | inr (u, e') ↦
              let (m, t) =
                find-Mem (lfs_token_matches crypto.digest w.now raw) w.db.lfs_auth_tokens row e in
              let (m', t') = find-Mem (lfs_user row login) w.db.users u e' in
              by_lfs_token login raw row u sent (ground arith) m
                (ground (arith, str_eq_iff row.token_hash (crypto.digest raw))) (ground arith)
                (m', ground arith, ground arith) (ground arith)
        ]
      ]

  pub cookie-Authentic :
      (raw : Option Str) (w v : World) (i : Identity)
      → ((s : Str) → raw ≡ some s → SendsCookie hs s)
      → by_cookie crypto victim raw w ≡ (ok i, v)
      → Authentic crypto hs w i
  unfolding resolve_session query execute
  cookie-Authentic none w v i sent h = as_nobody (ground arith)
  cookie-Authentic (some raw) w v i sent h =
      elim (Option-cases (find (session_matches crypto.digest w.now raw) w.db.sessions)) [
        | inl e ↦ as_nobody (ground arith)
        | inr (row, e) ↦ elim (Option-cases (active_user row.user_id w.db)) [
          | inl e' ↦ as_nobody (ground arith)
          | inr (u, e') ↦
              let (m, t) = find-Mem (session_matches crypto.digest w.now raw) w.db.sessions row e in
              by_session raw row u (sent raw refl) m
                (ground (arith, str_eq_iff row.id (crypto.digest raw))) (ground arith)
                (active_user_sound w row.user_id u e') (ground arith)
        ]
      ]

  abbrev named : Str → User → Bool
  named login u = nocase u.username login && is_active u

  pub password-Authentic :
      (cfg : AuthConfig) (login secret key ip_key : Str) (w v : World) (i : Identity)
      → LogsIn crypto hs login secret
      → by_password crypto victim cfg login secret key ip_key w ≡ (ok i, v)
      → Authentic crypto hs w i
  unfolding query verify_password_async record_failures
  password-Authentic cfg login secret key ip_key w v i sent h =
      elim (Option-cases (find (named login) w.db.users)) [
        | inl e ↦ as_nobody (ground arith)
        | inr (u, e) ↦
            elim (Bool-cases (
              if w.fails (suc w.calls)
              then false
              else verify_password crypto.bcrypt secret u.password_hash)) [
                | inr f ↦ as_nobody (ground arith)
                | inl t ↦
                    let (m, t') = find-Mem (named login) w.db.users u e in
                    with_password login secret u sent (ground arith) m (ground arith) (ground arith)
                      (ground arith)
              ]
      ]

  pub Authentic-swept :
      (w : World) (m : Throttle.Failures) (i : Identity)
      → Authentic crypto hs (record w { failures = m }) i
      → Authentic crypto hs w i
  Authentic-swept w m i (as_nobody e) = as_nobody e
  Authentic-swept w m i (by_token raw row u scopes p a b c d k l e) =
      by_token raw row u scopes p a b c d k l e
  Authentic-swept w m i (by_lfs_token login raw row u p n a b c d e) =
      by_lfs_token login raw row u p n a b c d e
  Authentic-swept w m i (by_session raw row u p a b c d e) = by_session raw row u p a b c d e
  Authentic-swept w m i (with_password login secret u p n a b c e) =
      with_password login secret u p n a b c e
