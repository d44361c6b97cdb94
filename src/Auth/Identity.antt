-- ===== src/Auth/Identity.antt =====
-- crates/rgit-http/src/middleware/auth.rs: who is calling, and the guard of the REST routes.
-- Of the request this file reads the headers whose values are visible ASCII text.
pub mod Guard
pub mod Presented
pub mod Vouched
pub mod Sources
use rgit.Common.{
  ℕ, suc, ◌+◌, ◌*◌, Str, text, Bool, true, false, not, ◌&&◌, ◌||◌, ◌==◌, ltb, Option, none, some,
  List, [], ◌∷◌, map, find, and_then, str_eq, strip_prefix, starts_with, split, split_once, trim,
  nocase, if◌then◌else◌,
}
use rgit.Error.{Error, invalid, unauthorized, forbidden}
use rgit.Result.{Result, ok, err}
use rgit.Models.{User, PersonalAccessToken, Session, LfsAuthToken, is_active}
use rgit.Store.{Db, World, M, query, execute, pure, fail, require, check, ◌>>=◌, ◌>>◌}
use rgit.Throttle
use rgit.Auth.Token.{
  Scope, api, read_api, read_repository, write_repository, scopes_allow, token_prefix,
  lfs_token_prefix, find_active_token, resolve_session, find_lfs_token, active_user, now,
}
use rgit.Auth.Password.{Bcrypt, verify_password_async}

pub data AuthMethod : Type 0 where
  session basic : AuthMethod
  token : List Scope → AuthMethod
  lfs_token : (project_id : ℕ) (can_write : Bool) → AuthMethod

pub record Identity : Type 0 where
  pub user : Option User
  pub method : Option AuthMethod

-- Identity::default()
abbrev pub nobody : Identity
nobody = record { user = none; method = none }

abbrev method_allows : Option AuthMethod → Scope → Bool
method_allows none needed = false
method_allows (some session) needed = true
method_allows (some basic) needed = true
method_allows (some (token scopes)) needed = scopes_allow scopes needed
method_allows (some (lfs_token p can_write)) read_repository = true
method_allows (some (lfs_token p can_write)) write_repository = can_write
method_allows (some (lfs_token p can_write)) api = false
method_allows (some (lfs_token p can_write)) read_api = false

unfoldable pub allows : Identity → Scope → Bool
unfolding scopes_allow
allows i needed = method_allows i.method needed

abbrev lfs_of : Option AuthMethod → Option (ℕ × Bool)
lfs_of (some (lfs_token p can_write)) = some (p, can_write)
lfs_of _ = none

unfoldable pub lfs_project : Identity → Option (ℕ × Bool)
lfs_project i = lfs_of i.method

pub record Headers : Type 0 where
  pub private_token : Option Str
  pub authorization : Option Str
  pub cookie : Option Str
  pub csrf : Option Str

pub record AuthConfig : Type 0 where
  pub session_ttl_hours : ℕ
  pub bcrypt_cost : ℕ
  pub min_password_length : ℕ
  pub max_login_failures : ℕ
  pub lockout_minutes : ℕ

-- SHA-256 in hex, bcrypt, the base64 decoder followed by the UTF-8 check, and the JSON of scopes.
pub record Crypto : Type 0 where
  pub digest : Str → Str
  pub bcrypt : Bcrypt
  pub decode_base64 : Str → Option Str
  pub parse_scopes : Str → Option (List Scope)

-- `kv.trim().split_once('=')`
abbrev pub cookie_pair : Str → Option (Str × Str)
cookie_pair kv = split_once (λ c. c == b'=') (trim kv)

-- The value of the first pair with the name.
abbrev pub pair_value : Str → List Str → Option Str
pair_value name [] = none
pair_value name (kv ∷ rest) = elim (cookie_pair kv) [
  | none ↦ pair_value name rest
  | some (k, v) ↦ if str_eq k name then some v else pair_value name rest
]

unfoldable pub cookie_value : Option Str → Str → Option Str
cookie_value header name = and_then header (λ s. pair_value name (split b';' s))

abbrev pub session_cookie : Str
session_cookie = text "rgit_session"

-- PRIVATE-TOKEN, or else Authorization: Bearer.
abbrev pub raw_token : Headers → Option Str
raw_token h = elim h.private_token [
  | some t ↦ some t
  | none ↦ and_then h.authorization (strip_prefix (text "Bearer "))
]

-- u32::saturating_mul(5)
abbrev pub times_five : ℕ → ℕ
times_five n = if ltb 0xffff_ffff (n * 5) then 0xffff_ffff else n * 5

abbrev pub dummy_hash : Str
dummy_hash = text "$2b$12$C6UzMDM.H6dfI/f/IKcEeO7ZBpDLhAuBIrEmSHDPMU0.PEZFXvyzC"

-- The throttle's functions, on the map that the handlers share.
unfoldable pub check_lockout : Str → ℕ → M Bool
check_lockout key max w =
    let (locked, m) = Throttle.check_lockout w.now key max w.failures in
    (ok locked, record w { failures = m })

-- `a || b`: the second key is not looked at, and its map not swept, if the first is locked.
unfoldable pub locked_out : Str → Str → ℕ → M Bool
unfolding check_lockout
locked_out key ip_key max = do
  first ← check_lockout key max
  if first then pure true else check_lockout ip_key (times_five max)

abbrev modify_failures : (ℕ → Throttle.Failures → Throttle.Failures) → M (Unit {0})
modify_failures f w = (ok tt, record w { failures = f w.now w.failures })

module _ (crypto : Crypto) (victim : Throttle.Failures → Option Str) where
  unfoldable pub record_failures : Str → Str → ℕ → M (Unit {0})
  record_failures key ip_key lockout = do
    modify_failures (λ t m. Throttle.record_failure victim t key lockout m)
    modify_failures (λ t m. Throttle.record_failure victim t ip_key lockout m)

  abbrev mark_used : ℕ → ℕ → Db → Result (Unit {0} × Db)
  mark_used t id d = ok (
    tt,
    record d {
      tokens = map (λ r. if r.id == id then record r { last_used_at = some t } else r) d.tokens;
    },
  )

  abbrev with_scopes : User → Option (List Scope) → M Identity
  with_scopes user none = fail (invalid (text "malformed token scopes"))
  with_scopes user (some scopes) = pure (record { user = some user; method = some (token scopes) })

  abbrev pat_user : PersonalAccessToken → Option User → M Identity
  pat_user pat none = pure nobody
  pat_user pat (some user) = do
    t ← now
    execute (mark_used t pat.id)
    with_scopes user (crypto.parse_scopes pat.scopes)

  abbrev with_pat : Option PersonalAccessToken → M Identity
  with_pat none = pure nobody
  with_pat (some pat) = do user ← query (active_user pat.user_id); pat_user pat user

  unfoldable pub authenticate_pat : Str → M Identity
  unfolding find_active_token
  authenticate_pat raw = do pat ← find_active_token crypto.digest raw; with_pat pat

  abbrev lfs_identity : LfsAuthToken → Option User → M Identity
  lfs_identity t none = pure nobody
  lfs_identity t (some user) =
      pure (record { user = some user; method = some (lfs_token t.project_id t.can_write) })

  abbrev with_lfs_token : Str → Option LfsAuthToken → M Identity
  with_lfs_token login none = pure nobody
  with_lfs_token login (some t) = do
    user ←
        query (λ d. find (λ u. u.id == t.user_id && nocase u.username login && is_active u) d.users)
    lfs_identity t user

  unfoldable pub authenticate_lfs_token : Str → Str → M Identity
  unfolding find_lfs_token
  authenticate_lfs_token login raw = do t ← find_lfs_token crypto.digest raw; with_lfs_token login t

  abbrev hash_of : Option User → Str
  hash_of none = dummy_hash
  hash_of (some u) = u.password_hash

  abbrev password_result : AuthConfig → Str → Str → Option User → Bool → M Identity
  password_result cfg key ip_key (some user) true = do
    modify_failures (λ t m. Throttle.clear_failures key m)
    modify_failures (λ t m. Throttle.clear_failures ip_key m)
    pure (record { user = some user; method = some basic })
  password_result cfg key ip_key _ _ = do
    record_failures key ip_key (cfg.lockout_minutes * 60)
    pure nobody

  abbrev by_password : AuthConfig → Str → Str → Str → Str → M Identity
  by_password cfg login secret key ip_key = do
    user ← query (λ d. find (λ u. nocase u.username login && is_active u) d.users)
    verified ← verify_password_async crypto.bcrypt secret (hash_of user)
    password_result cfg key ip_key user verified

  abbrev unless_locked : AuthConfig → Str → Str → Str → Str → Bool → M Identity
  unless_locked cfg login secret key ip_key true = pure nobody
  unless_locked cfg login secret key ip_key false = by_password cfg login secret key ip_key

  abbrev with_login : AuthConfig → Str → Option (Str × Str) → M Identity
  with_login cfg ip none = pure nobody
  with_login cfg ip (some (login, secret)) =
      if starts_with lfs_token_prefix secret
      then authenticate_lfs_token login secret
      else if starts_with token_prefix secret
      then authenticate_pat secret
      else (do
        locked ←
            locked_out (Throttle.throttle_key login ip) (Throttle.ip_throttle_key ip)
              cfg.max_login_failures
        unless_locked cfg login secret (Throttle.throttle_key login ip)
            (Throttle.ip_throttle_key ip) locked)

  unfoldable pub authenticate_basic : AuthConfig → Str → Str → M Identity
  authenticate_basic cfg encoded ip = do
    decoded ← require (crypto.decode_base64 encoded) unauthorized
    with_login cfg ip (split_once (λ c. c == b':') decoded)

  abbrev by_session : Option (Session × User) → M Identity
  by_session none = pure nobody
  by_session (some (s, user)) = pure (record { user = some user; method = some session })

  abbrev by_cookie : Option Str → M Identity
  by_cookie none = pure nobody
  by_cookie (some raw) = do found ← resolve_session crypto.digest raw; by_session found

  abbrev by_basic : AuthConfig → Headers → Str → Option Str → M Identity
  by_basic cfg h ip (some encoded) = authenticate_basic cfg encoded ip
  by_basic cfg h ip none = by_cookie (cookie_value h.cookie session_cookie)

  unfoldable pub identify : AuthConfig → Headers → Str → M Identity
  identify cfg h ip = elim (raw_token h) [
    | some raw ↦ authenticate_pat raw
    | none ↦ by_basic cfg h ip (and_then h.authorization (strip_prefix (text "Basic ")))
  ]

  abbrev or_nobody : Result Identity × World → Identity × World
  or_nobody (ok i, w) = (i, w)
  or_nobody (err e, w) = (nobody, w)

  unfoldable pub resolve_identity : AuthConfig → Headers → Str → World → Identity × World
  resolve_identity cfg h ip w = or_nobody (identify cfg h ip w)

unfoldable pub require_user : Identity → Result User
require_user i = elim i.user [ none ↦ err unauthorized | some u ↦ ok u ]

abbrev only_admin : Result User → Result User
only_admin (ok u) = if u.is_admin then ok u else err forbidden
only_admin (err e) = err e

unfoldable pub require_admin : Identity → Result User
unfolding require_user
require_admin i = only_admin (require_user i)

pub data Method : Type 0 where
  get head options post patch put delete : Method

abbrev pub mutating : Method → Bool
mutating post = true
mutating patch = true
mutating put = true
mutating delete = true
mutating _ = false

abbrev csrf_ok : Option Str → Bool
csrf_ok none = false
csrf_ok (some v) = str_eq v (text "1")

abbrev guard_method : Bool → Option Str → Option AuthMethod → Bool
guard_method mutates csrf (some session) = if mutates then csrf_ok csrf else true
guard_method mutates csrf (some (token scopes)) =
    scopes_allow scopes (if mutates then api else read_api)
guard_method mutates csrf _ = true

-- Whether the request goes on to the handler; if not, the answer is 403.
unfoldable pub api_guard : Method → Option Str → Identity → Bool
unfolding scopes_allow
api_guard m csrf i = guard_method (mutating m) csrf i.method
