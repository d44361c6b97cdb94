-- ===== src/Account/Login/Verified.antt =====
-- Who is logged in, and what the cookie of a login names.
use rgit.Common.{
  ℕ, ◌+◌, ◌*◌, ◌≡◌, sym, ap, ◌∙◌, subst, Str, Bool, true, ◌&&◌, ◌==◌, Option, none, some, arith,
  Memᴰ, if◌then◌else◌, ltb,
}
use rgit.Result.{ok}
use rgit.Models.{User, is_active}
use rgit.Store.{Db, World, pure}
use rgit.Store.Calls.{Healthy, bind-eq-ok}
use rgit.Tables.Keys.{Distinct, find_unique}
use rgit.Throttle.{Failures}
use rgit.Auth.Token.{resolve_session, active_user}
use rgit.Auth.Token.Lookup.{new_session, resolve-create_session, resolve-destroy_session}
use rgit.Auth.Identity.{Crypto, AuthConfig, cookie_value, session_cookie}
use rgit.Account.Login.{LoginRequest, logged_in, login_matches, login, destroyed, logout}
use rgit.Account.Login.Steps.{Verified, login-steps}

user-found :
    (d : Db) (u : User) (login : Str)
    → Distinct (λ (r : User). r.id) d.users
    → Memᴰ u d.users
    → login_matches login u ≡ true
    → active_user u.id d ≡ some u
user-found d u login distinct m t =
    find_unique (λ (r : User). r.id) (λ r. r.id == u.id && is_active r) d.users u distinct m
      (ground arith) (λ r s. ground arith)

module _ (crypto : Crypto) (victim : Failures → Option Str) (decimal : ℕ → Str) where
  -- A login that succeeds, whatever calls fail: neither key was locked, and the user is an active one of the database
  -- with the given name or address, whose password verifies.
  pub login-Verified :
      (cfg : AuthConfig) (external_url ip raw cookie : Str) (req : LoginRequest) (u : User)
      (w v : World)
      → login crypto victim decimal cfg external_url ip req w ≡ (ok (logged_in raw cookie u), v)
      → (x : World) × Verified crypto victim decimal w x ip cfg req u
  login-Verified cfg external_url ip raw cookie req u w v h =
      let (x, verified, _) =
        login-steps crypto victim decimal cfg external_url ip raw cookie req u w v h in
      (x, verified)

  -- With a database that answers and distinct user ids: the cookie of a login names its session and that user at every
  -- later time until the session ends, and nobody from then on.
  pub resolve_session-login :
      (cfg : AuthConfig) (external_url ip raw cookie : Str) (req : LoginRequest) (u : User)
      (later : ℕ) (w v : World)
      → login crypto victim decimal cfg external_url ip req w ≡ (ok (logged_in raw cookie u), v)
      → Healthy w
      → Distinct (λ (r : User). r.id) w.db.users
      → (resolve_session crypto.digest raw (record v { now = later })).0
        ≡ ok (
            if ltb later (w.now + cfg.session_ttl_hours * 3600)
            then some (
              new_session crypto.digest w.now u.id cfg.session_ttl_hours
                  (some ip)
                  req.user_agent
                  raw,
              u,
            )
            else none)
  resolve_session-login cfg external_url ip raw cookie req u later w v h healthy distinct =
      let (x, verified, made) =
        login-steps crypto victim decimal cfg external_url ip raw cookie req u w v h in
      let (db, now, fails) = verified.same in
      let at_x =
        resolve-create_session crypto.digest u.id cfg.session_ttl_hours later (some ip)
          req.user_agent x v raw u made (λ n. ap (λ (f : ℕ → Bool). f n) fails ∙ healthy n)
          (subst (λ (d : Db). active_user u.id d ≡ some u) (sym db)
            (user-found w.db u req.login distinct verified.stored verified.matches)) in
      subst
        (λ t.
          (resolve_session crypto.digest raw (record v { now = later })).0
          ≡ ok (
              if ltb later (t + cfg.session_ttl_hours * 3600)
              then some (
                new_session crypto.digest t u.id cfg.session_ttl_hours (some ip) req.user_agent raw,
                u,
              )
              else none))
        now at_x

  -- With a database that answers: the session that the cookie of a logout names is gone, and its cookie names nobody.
  pub resolve_session-logout :
      (external_url answer raw : Str) (cookie : Option Str) (w v : World)
      → logout crypto victim decimal external_url cookie w ≡ (ok answer, v)
      → cookie_value cookie session_cookie ≡ some raw
      → Healthy w
      → (resolve_session crypto.digest raw v).0 ≡ ok none
  unfolding logout
  resolve_session-logout external_url answer raw cookie w v h e healthy =
      let gone = λ (o : Option Str). destroyed crypto victim decimal o in
      let (_, x, a, b) = bind-eq-ok (gone (cookie_value cookie session_cookie)) (λ _. pure _) w h in
      let end : x ≡ v = ground arith in
      subst (λ (q : World). (resolve_session crypto.digest raw q).0 ≡ ok none) end
        (resolve-destroy_session crypto.digest raw w x (subst (λ o. gone o w ≡ (ok tt, x)) e a)
          healthy)
