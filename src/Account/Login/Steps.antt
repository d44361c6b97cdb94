-- ===== src/Account/Login/Steps.antt =====
-- What a login that succeeds has done, step by step.
use rgit.Common.{
  ℕ, ◌*◌, ◌≡◌, refl, sym, ap, ◌∙◌, subst, Str, Bool, true, false, Option, none, some, find,
  find-Mem, arith, Memᴰ,
}
use rgit.Error.{unauthorized}
use rgit.Result.{Result, ok}
use rgit.Models.{User}
use rgit.Store.{continue, Db, World, query, pure, fail, ◌>>=◌, ◌>>◌}
use rgit.Store.Calls.{bind-eq-ok, query-eq-ok}
use rgit.Throttle
use rgit.Throttle.{Failures}
use rgit.Auth.Token.{create_session}
use rgit.Auth.Password.{verify_password, verify_password_async}
use rgit.Auth.Identity.{Crypto, AuthConfig, locked_out, record_failures}
use rgit.Auth.Identity.Sources.{locked_out-result}
use rgit.Account.Login.{
  LoginRequest, LoginAnswer, logged_in, login_matches, hash_or_dummy, cookie_of, clear_keys,
  admitted, checked, login,
}

module _ (crypto : Crypto) (victim : Failures → Option Str) (decimal : ℕ → Str) where
  -- What a login that succeeds has checked, and the world in which its session is made.
  pub record Verified (w x : World) (ip : Str) (cfg : AuthConfig) (req : LoginRequest) (u : User)
      : Type 0 where
    pub stored : Memᴰ u w.db.users
    pub matches : login_matches req.login u ≡ true
    pub password : verify_password crypto.bcrypt req.password u.password_hash ≡ true
    pub unlocked :
        (locked_out
          (Throttle.throttle_key req.login ip)
          (Throttle.ip_throttle_key ip)
          cfg.max_login_failures
          w).0
        ≡ ok false
    pub same : (x.db ≡ w.db) × (x.now ≡ w.now) × (x.fails ≡ w.fails)

  refuses :
      (cfg : AuthConfig) (ip : Str) (req : LoginRequest) (a : LoginAnswer) (w v : World)
      → (record_failures crypto victim
              (Throttle.throttle_key req.login ip)
              (Throttle.ip_throttle_key ip)
              (cfg.lockout_minutes * 60)
            >> fail unauthorized)
          w
        ≡ (ok a, v)
      → ⊥
  unfolding record_failures
  refuses cfg ip req a w v h = absurd (ground arith)

  admitted-steps :
      (cfg : AuthConfig) (external_url ip raw cookie : Str) (req : LoginRequest) (o : Option User)
      (b : Bool) (u : User) (w v : World)
      → admitted crypto victim decimal cfg external_url ip req o b w
        ≡ (ok (logged_in raw cookie u), v)
      → (o ≡ some u)
        × (b ≡ true)
        × (x : World) × ((x.db ≡ w.db) × (x.now ≡ w.now) × (x.fails ≡ w.fails))
        × (create_session crypto.digest u.id cfg.session_ttl_hours (some ip) req.user_agent x
            ≡ (ok raw, v))
        × (cookie ≡ cookie_of crypto victim decimal cfg external_url raw)
  admitted-steps cfg external_url ip raw cookie req none b u w v h =
      absurd (refuses cfg ip req _ w v h)
  admitted-steps cfg external_url ip raw cookie req (some t) false u w v h =
      absurd (refuses cfg ip req _ w v h)
  admitted-steps cfg external_url ip raw cookie req (some t) true u w v h =
      let keys =
        clear_keys crypto victim decimal (Throttle.throttle_key req.login ip)
          (Throttle.ip_throttle_key ip) in
      let make = create_session crypto.digest t.id cfg.session_ttl_hours (some ip) req.user_agent in
      let answer = λ (raw : Str).
        pure (logged_in raw (cookie_of crypto victim decimal cfg external_url raw) t) in
      let (_, x, a, b) = bind-eq-ok keys (λ _. make >>= answer) w h in
      let (raw', y, c, d) = bind-eq-ok make answer x b in
      let same_user : t ≡ u = ground arith in
      let same_raw : raw' ≡ raw = ground arith in
      let end : y ≡ v = ground arith in
      (
        ap some same_user,
        refl,
        x,
        (ground arith, ground arith, ground arith),
        subst
            (λ (q : User).
              create_session crypto.digest q.id cfg.session_ttl_hours (some ip) req.user_agent x
              ≡ (ok raw, v))
            same_user
            (c ∙ ap (λ (s : Str). (ok s, y)) same_raw ∙ ap (λ (q : World). (ok raw, q)) end),
        ground arith,
      )

  verify-kept :
      (plain hash : Str) (w v : World)
      → verify_password_async crypto.bcrypt plain hash w ≡ (ok true, v)
      → (verify_password crypto.bcrypt plain hash ≡ true)
        × (v.db ≡ w.db)
        × (v.now ≡ w.now)
        × (v.fails ≡ w.fails)
  unfolding verify_password_async
  verify-kept plain hash w v h = (ground arith, ground arith, ground arith, ground arith)

  -- What follows the look at the throttle.
  record Checked (w x : World) (req : LoginRequest) (u : User) : Type 0 where
    stored : Memᴰ u w.db.users
    matches : login_matches req.login u ≡ true
    password : verify_password crypto.bcrypt req.password u.password_hash ≡ true
    db : x.db ≡ w.db
    now : x.now ≡ w.now
    fails : x.fails ≡ w.fails

  password-Checked :
      (req : LoginRequest) (o : Option User) (good : Bool) (u : User) (w y z s : World)
      → query (λ d. find (login_matches req.login) d.users) w ≡ (ok o, y)
      → verify_password_async crypto.bcrypt req.password (hash_or_dummy o) y ≡ (ok good, z)
      → o ≡ some u
      → good ≡ true
      → (s.db ≡ z.db) × (s.now ≡ z.now) × (s.fails ≡ z.fails)
      → Checked w s req u
  password-Checked req o good u w y z s a c same_user verified (db, now, fails) =
      let (read, kept) = query-eq-ok (λ (d : Db). find (login_matches req.login) d.users) w y a in
      let (mem, t) = find-Mem (login_matches req.login) w.db.users u (sym read ∙ same_user) in
      let (password, db', now', fails') =
        verify-kept req.password (hash_or_dummy o) y z
          (c ∙ ap (λ (g : Bool). (ok g, z)) verified) in
      record {
        stored = mem;
        matches = t;
        password =
            subst (λ p. verify_password crypto.bcrypt req.password (hash_or_dummy p) ≡ true)
              same_user password;
        db = db ∙ db' ∙ kept.db;
        now = now ∙ now' ∙ kept.now;
        fails = fails ∙ fails' ∙ kept.fails;
      }

  checked-steps :
      (cfg : AuthConfig) (external_url ip raw cookie : Str) (req : LoginRequest) (u : User)
      (w v : World)
      → checked crypto victim decimal cfg external_url ip req false w
        ≡ (ok (logged_in raw cookie u), v)
      → (x : World) × Checked w x req u
        × (create_session crypto.digest u.id cfg.session_ttl_hours (some ip) req.user_agent x
            ≡ (ok raw, v))
  checked-steps cfg external_url ip raw cookie req u w v h =
      let found = query (λ d. find (login_matches req.login) d.users) in
      let verify =
        λ (o : Option User). verify_password_async crypto.bcrypt req.password (hash_or_dummy o) in
      let admit = admitted crypto victim decimal cfg external_url ip req in
      let (o, y, a, k) = bind-eq-ok found (λ o. verify o >>= admit o) w h in
      let (good, z, c, d) = bind-eq-ok (verify o) (admit o) y k in
      let (same_user, verified, s, kept, made, _) =
        admitted-steps cfg external_url ip raw cookie req o good u z v d in
      (s, password-Checked req o good u w y z s a c same_user verified kept, made)

  pub login-steps :
      (cfg : AuthConfig) (external_url ip raw cookie : Str) (req : LoginRequest) (u : User)
      (w v : World)
      → login crypto victim decimal cfg external_url ip req w ≡ (ok (logged_in raw cookie u), v)
      → (x : World) × Verified w x ip cfg req u
        × (create_session crypto.digest u.id cfg.session_ttl_hours (some ip) req.user_agent x
            ≡ (ok raw, v))
  unfolding login
  login-steps cfg external_url ip raw cookie req u w v h =
      let key = Throttle.throttle_key req.login ip in
      let ip_key = Throttle.ip_throttle_key ip in
      let (b, m, lock) = locked_out-result crypto victim key ip_key cfg.max_login_failures w in
      let rest : continue (ok b, record w { failures = m })
            (checked crypto victim decimal cfg external_url ip req)
          ≡ (ok (logged_in raw cookie u), v) =
        ap
          (λ (r : Result Bool × World).
            continue r (checked crypto victim decimal cfg external_url ip req))
          (sym lock)
        ∙ h in
      past b m lock rest
    where
      past :
          (b : Bool) (m : Failures)
          → locked_out
              (Throttle.throttle_key req.login ip)
              (Throttle.ip_throttle_key ip)
              cfg.max_login_failures
              w
            ≡ (ok b, record w { failures = m })
          → checked crypto victim decimal cfg external_url ip req b (record w { failures = m })
            ≡ (ok (logged_in raw cookie u), v)
          → (x : World) × Verified w x ip cfg req u
            × (create_session crypto.digest u.id cfg.session_ttl_hours (some ip) req.user_agent x
                ≡ (ok raw, v))
      past true m lock rest = absurd (ground arith)
      past false m lock rest =
          let (x, c, made) =
            checked-steps cfg external_url ip raw cookie req u (record w { failures = m }) v rest in
          (
            x,
            record {
              stored = c.stored;
              matches = c.matches;
              password = c.password;
              unlocked = ap (λ (r : Result Bool × World). r.0) lock;
              same = (c.db, c.now, c.fails);
            },
            made,
          )
