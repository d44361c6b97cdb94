-- ===== src/Shell/Run/Presented.antt =====
-- The LFS client that presents the credential of a grant, and who it is taken for.
use rgit.Common.{
  ℕ, suc, ◌+◌, ◌<◌, ◌≡◌, refl, sym, ap, ◌∙◌, Str, text, ◌++◌, Bool, true, false, ◌&&◌, ◌==◌, Option,
  none, some, arith, contains, &&-eq-true, map, to_ascii_lowercase, List, ◌∷◌, Memᴰ, find, find-Mem,
  nocase, str_eq_refl, strip_prefix,
}
use rgit.Result.{ok}
use rgit.Models.{User, Project, LfsAuthToken, is_active}
use rgit.Store.{Db, World, query}
use rgit.Store.Calls.{Healthy}
use rgit.Tables.Keys.{Distinct, find_unique}
use rgit.Auth.Token.{find_lfs_token, lfs_token_prefix}
use rgit.Auth.Identity.{
  Crypto, AuthConfig, Headers, Identity, lfs_token, authenticate_lfs_token, authenticate_basic,
  identify, resolve_identity,
}
use rgit.Throttle.{Failures}
use rgit.Shell.Parsed.{split_once-append}
use rgit.Shell.Run.{completed, lfs_grant, LfsGrant, Host, owns_key, run, lfs_token_ttl_seconds}
use rgit.Shell.Run.Steps.{run-eq-completed}
use rgit.Shell.Run.Rights.{command-May}
use rgit.Shell.Run.Granted.{row_of, command-Issued}

abbrev is_caller : User → User → Bool
is_caller u v = v.id == u.id && nocase v.username u.username && is_active v

caller-found :
    (us : List User) (u : User)
    → Distinct (λ (v : User). v.id) us
    → Memᴰ u us
    → is_active u ≡ true
    → find (is_caller u) us ≡ some u
unfolding nocase
caller-found us u d m a =
    find_unique (λ (v : User). v.id) (is_caller u) us u d m
      (ground (arith, str_eq_refl (map to_ascii_lowercase u.username))) (λ v t. ground arith)

abbrev pub lfs_caller : User → ℕ → Bool → Identity
lfs_caller u project_id can_write = record {
  user = some u;
  method = some (lfs_token project_id can_write);
}

abbrev pub presenting : Str → Headers
presenting authorization = record {
  private_token = none;
  authorization = some authorization;
  cookie = none;
  csrf = none;
}

module _ (crypto : Crypto) (victim : Failures → Option Str) where
  token-accepted :
      (u : User) (row : LfsAuthToken) (raw : Str) (rest : List LfsAuthToken) (w : World)
      → Healthy w
      → w.db.lfs_auth_tokens ≡ row ∷ rest
      → row.token_hash ≡ crypto.digest raw
      → row.user_id ≡ u.id
      → w.now < row.expires_at
      → Distinct (λ (v : User). v.id) w.db.users
      → Memᴰ u w.db.users
      → is_active u ≡ true
      → (authenticate_lfs_token crypto victim u.username raw w).0
        ≡ ok (lfs_caller u row.project_id row.can_write)
  unfolding authenticate_lfs_token find_lfs_token query
  token-accepted u row raw rest w healthy rows hash user soon d m a = ground (
    arith,
    healthy w.calls,
    healthy (suc w.calls),
    str_eq_refl (crypto.digest raw),
    caller-found w.db.users u d m a,
  )

  basic-accepted :
      (cfg : AuthConfig) (ip encoded username random : Str) (w : World) (i : Identity)
      → crypto.decode_base64 encoded ≡ some (username ++ (text ":" ++ (lfs_token_prefix ++ random)))
      → contains b':' username ≡ false
      → (authenticate_lfs_token crypto victim username (lfs_token_prefix ++ random) w).0 ≡ ok i
      → (resolve_identity crypto victim cfg (presenting (text "Basic " ++ encoded)) ip w).0 ≡ i
  unfolding resolve_identity identify authenticate_basic strip_prefix
  basic-accepted cfg ip encoded username random w i e c h =
      ground (arith, e, h, split_once-append b':' username (lfs_token_prefix ++ random) c)

  -- With a database that answers and distinct user ids: the credential that a run of git-lfs-authenticate
  -- prints, presented within the hour, is taken for that of the user of the key, for the project and the access
  -- that was granted. The user's name has no colon.
  pub resolve_identity-lfs_grant :
      (host : Host) (key_id : ℕ) (original : Str) (w v : World) (can_write : Bool) (p : Project)
      (g : LfsGrant) (cfg : AuthConfig) (ip : Str) (later : ℕ)
      → run host key_id original w ≡ (completed (lfs_grant can_write p g), v)
      → Healthy v
      → Distinct (λ (u : User). u.id) w.db.users
      → ((u : User) → Memᴰ u w.db.users → contains b':' u.username ≡ false)
      → host.naming.digest ≡ crypto.digest
      → ((s : Str) → crypto.decode_base64 (host.encode_base64 s) ≡ some s)
      → later < w.now + lfs_token_ttl_seconds
      → (u : User) × (owns_key w.db key_id u ≡ true)
        × ((resolve_identity crypto victim cfg
              (presenting g.authorization)
              ip
              (record v { now = later })).0
            ≡ lfs_caller u p.id can_write)
  resolve_identity-lfs_grant host key_id original w v can_write p g cfg ip later h healthy distinct
        names digest codec soon =
      let (c, u, x, st, k) =
        run-eq-completed host key_id original w v (lfs_grant can_write p g) h in
      let (asked, _) = command-May host key_id c u x v (lfs_grant can_write p g) k in
      let (y, kept, issued) = command-Issued host key_id c u can_write p g x v (sym asked) k in
      let (mem, owns) = find-Mem (owns_key w.db key_id) w.db.users u st.found in
      let users : v.db.users ≡ w.db.users =
        issued.kept.users ∙ kept.users ∙ ap (λ (d : Db). d.users) st.db in
      let raw = lfs_token_prefix ++ issued.random in
      let row = row_of host.naming.digest u p can_write raw y.now in
      let clock : y.now ≡ w.now = kept.now ∙ st.now in
      let token =
        token-accepted u row raw y.db.lfs_auth_tokens (record v { now = later }) healthy issued.row
          (ap (λ d. d raw) digest) refl (rw clock soon) (rw users distinct) (rw users mem)
          (&&-eq-true _ _ owns).0 in
      (
        u,
        owns,
        rw issued.authorization (
            basic-accepted cfg ip (host.encode_base64 (u.username ++ (text ":" ++ raw))) u.username
              issued.random (record v { now = later }) (lfs_caller u p.id can_write) (codec _)
              (names u mem) token),
      )
