-- ===== src/Account/Profile/Changed.antt =====
-- What a change of one's own password needs, and what it leaves.
use rgit.Common.{
  ℕ, suc, retain, ◌≡◌, sym, subst, Str, true, false, not, ◌==◌, some, List, any, map, arith, Memᴰ,
  map-Mem, Bool-cases, Option-cases, text, inl, inr, if◌then◌else◌,
}
use rgit.Error.{invalid}
use rgit.Result.{ok}
use rgit.Models.{User}
use rgit.Store.{Db, World, execute, transaction, pure, lift, check, ◌>>=◌, ◌>>◌}
use rgit.Store.Calls.{bind-eq-ok, execute-eq-ok, transaction-eq-ok}
use rgit.Auth.Token.{now}
use rgit.Auth.Password.{
  verify_password, verify_password_async, hash_password_async, check_password_policy,
}
use rgit.Admin.{Passwords, delete_sessions}
use rgit.Admin.Blocked.{no-kept}
use rgit.Account.Profile.{ChangePassword, set_password, replace_password, change_password}

module _ (passwords : Passwords) where
  pub record Changed (user : User) (req : ChangePassword) (v : World) : Type 0 where
    pub hash : Str
    pub verified : verify_password passwords.bcrypt req.current_password user.password_hash ≡ true
    pub policy :
        check_password_policy passwords.decimal req.new_password passwords.min_length ≡ ok tt
    pub hashed : passwords.bcrypt.hash req.new_password passwords.cost ≡ some hash
    pub stored : (u : User) → Memᴰ u v.db.users → u.id ≡ user.id → u.password_hash ≡ hash
    pub no_session : any (λ s. s.user_id == user.id) v.db.sessions ≡ false

  abbrev with_hash : ℕ → ℕ → Str → List User → List User
  with_hash id t hash us =
      map
        (λ (u : User). if u.id == id then record u { password_hash = hash; updated_at = t } else u)
        us

  set_password-stored :
      (id t : ℕ) (hash : Str) (us : List User) (u : User)
      → Memᴰ u (with_hash id t hash us)
      → u.id ≡ id
      → u.password_hash ≡ hash
  set_password-stored id t hash us u m e =
      let (o, n, s) =
        map-Mem
          (λ (u : User).
            if u.id == id then record u { password_hash = hash; updated_at = t } else u)
          us u m in
      elim (Bool-cases (o.id == id)) [ inl y ↦ ground arith | inr f ↦ absurd (ground arith) ]

  replace_password-effect :
      (id t : ℕ) (hash : Str) (w v : World)
      → replace_password passwords id hash t w ≡ (ok tt, v)
      → ((u : User) → Memᴰ u v.db.users → u.id ≡ id → u.password_hash ≡ hash)
        × (any (λ s. s.user_id == id) v.db.sessions ≡ false)
  replace_password-effect id t hash w v h =
      let (_, x, a, b) =
        bind-eq-ok (execute (set_password id hash t))
          (λ _. execute (delete_sessions passwords id) >>= (λ _. pure tt)) w h in
      let (n, y, c, d) = bind-eq-ok (execute (delete_sessions passwords id)) (λ _. pure tt) x b in
      let (set, _, _) = execute-eq-ok (set_password id hash t) w x a in
      let (gone, _, _) = execute-eq-ok (delete_sessions passwords id) x y c in
      let users : v.db.users ≡ with_hash id t hash w.db.users = ground arith in
      let sessions : v.db.sessions ≡ retain (λ s. not (s.user_id == id)) w.db.sessions =
        ground arith in
      (
        λ u m e. set_password-stored id t hash w.db.users u (subst (λ us. Memᴰ u us) users m) e,
        rw sessions (no-kept id w.db.sessions),
      )

  made_hash :
      (plain : Str) (w v : World) (hash : Str)
      → hash_password_async passwords.bcrypt plain passwords.cost w ≡ (ok hash, v)
      → passwords.bcrypt.hash plain passwords.cost ≡ some hash
  unfolding hash_password_async
  made_hash plain w v hash h = elim (Option-cases (passwords.bcrypt.hash plain passwords.cost)) [
    | inl e ↦ absurd (ground arith)
    | inr (k, e) ↦ ground arith
  ]

  verified_by :
      (plain hash : Str) (w v : World)
      → verify_password_async passwords.bcrypt plain hash w ≡ (ok true, v)
      → verify_password passwords.bcrypt plain hash ≡ true
  unfolding verify_password_async
  verified_by plain hash w v h = ground arith

  -- Where a change of one's own password succeeds, the current password was the right one and the new one keeps the policy;
  -- every row of the user has the new password's digest, and no session of the user is left.
  pub change_password-Changed :
      (user : User) (req : ChangePassword) (w v : World)
      → change_password passwords user req w ≡ (ok tt, v)
      → Changed user req v
  unfolding change_password
  change_password-Changed user req w v h =
      let incorrect = invalid (text "current password is incorrect") in
      let policy = check_password_policy passwords.decimal req.new_password passwords.min_length in
      let write =
        λ (hash : Str). now >>= (λ t. transaction (replace_password passwords user.id hash t)) in
      let make = hash_password_async passwords.bcrypt req.new_password passwords.cost in
      let (verified, x, a, b) =
        bind-eq-ok (verify_password_async passwords.bcrypt req.current_password user.password_hash)
          (λ verified. check verified incorrect >> (lift policy >> (make >>= write))) w h in
      let (_, y, c, d) =
        bind-eq-ok (check verified incorrect) (λ _. lift policy >> (make >>= write)) x b in
      let (_, z, e, f) = bind-eq-ok (lift policy) (λ _. make >>= write) y d in
      let (hash, u, g, i) = bind-eq-ok make write z f in
      let (r, j, same) = transaction-eq-ok (replace_password passwords user.id hash u.now) u v i in
      let (stored, gone) =
        replace_password-effect user.id u.now hash (record u { calls = suc u.calls }) r j in
      let after : v.db ≡ r.db = same.db in
      record {
        hash = hash;
        verified = verified_by req.current_password user.password_hash w x (ground arith);
        policy = ground arith;
        hashed = made_hash req.new_password z u hash g;
        stored = λ o m. stored o (subst (λ d. Memᴰ o d.users) after m);
        no_session =
            subst (λ (d : Db). any (λ s. s.user_id == user.id) d.sessions ≡ false) (sym after) gone;
      }
