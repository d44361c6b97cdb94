-- ===== src/Admin/Blocked.antt =====
-- Blocking a user, or resetting the password, ends the user's sessions.
use rgit.Common.{
  ℕ, ◌≡◌, refl, Str, true, false, not, ◌&&◌, ◌||◌, ◌==◌, Option, none, some, List, [], ◌∷◌, any,
  find, retain, arith, is_some,
}
use rgit.Error.{not_found}
use rgit.Result.{ok}
use rgit.Models.{User, Session}
use rgit.Store.{Db, World, pure, query, execute, map_err, transaction, require}
use rgit.Store.Ends.{Ends, pure-Ends, from-Ends, then-Ends}
use rgit.Store.Calls.{bind-eq-ok, execute-eq-ok, transaction-eq-ok}
use rgit.Auth.Password.{hash_password_async}
use rgit.Tables.Users.{update_user as update_row, UserPatch, is_active_admin}
use rgit.Admin.{
  map_admin_invariant, Passwords, hash_reset, check_email, check_state, blocks, demotes, keep_admin,
  delete_sessions, kill_sessions, write_user, update_user,
}

pub no-kept :
    (id : ℕ) (ss : List Session)
    → any (λ s. s.user_id == id) (retain (λ s. not (s.user_id == id)) ss) ≡ false
no-kept id [] = refl
no-kept id (s ∷ ss) = ground (arith, no-kept id ss)

abbrev NoSession : ℕ → Db → Type 0
NoSession id d = any (λ s. s.user_id == id) d.sessions ≡ false

module _ (p : Passwords) where
  hash_reset-some : (s : Option Str) → Ends (hash_reset p s) (λ h v. is_some h ≡ is_some s)
  unfolding hash_password_async
  hash_reset-some none = record { at = λ w v h e. ground arith }
  hash_reset-some (some s) = record { at = λ w v h e. ground arith }

  kill_sessions-gone : (id : ℕ) → Ends (kill_sessions p true id) (λ _ v. NoSession id v.db)
  kill_sessions-gone id = record {
    at = λ w v _ h.
        let (n, x, a, b) = bind-eq-ok (execute (delete_sessions p id)) (λ _. pure tt) w h in
        let (e, _, _) = execute-eq-ok (delete_sessions p id) w x a in
        let rows : v.db.sessions ≡ retain (λ s. not (s.user_id == id)) w.db.sessions =
          ground arith in
        rw rows (no-kept id w.db.sessions);
  }

  write_user-gone :
      (id : ℕ) (patch : UserPatch) (t : ℕ)
      → blocks p patch.state || is_some patch.password_hash ≡ true
      → Ends (write_user p id patch t) (λ _ v. NoSession id v.db)
  write_user-gone id patch t b =
      then-Ends (map_err map_admin_invariant (execute (update_row id patch t))) _ (λ row.
        then-Ends (require row not_found) _ (λ user.
          pure-Ends (kill_sessions p (blocks p patch.state || is_some patch.password_hash) id) user
            (λ v. NoSession id v.db) (rw b (kill_sessions-gone id))))

  transaction-gone :
      (id : ℕ) (patch : UserPatch) (t : ℕ)
      → blocks p patch.state || is_some patch.password_hash ≡ true
      → Ends (transaction (write_user p id patch t)) (λ _ v. NoSession id v.db)
  transaction-gone id patch t b = record {
    at = λ w v u h.
        let (x, e, same) = transaction-eq-ok (write_user p id patch t) w v h in
        rw same.db ((write_user-gone id patch t b).at _ x u e);
  }

  update_user-Ends :
      (admin : User) (id : ℕ) (req : UserPatch)
      → blocks p req.state || is_some req.password_hash ≡ true
      → Ends (update_user p admin id req) (λ _ v. NoSession id v.db)
  unfolding update_user
  update_user-Ends admin id req b = then-Ends (check_email p req.email) _ (λ _.
      then-Ends (check_state p (id == admin.id) req.state) _ (λ _.
        then-Ends (query (λ d. find (λ (u : User). u.id == id) d.users)) _ (λ found.
          then-Ends (require found not_found) _ (λ current.
            then-Ends
              (keep_admin p
                (is_active_admin current && (demotes p req.is_admin || blocks p req.state)))
              _
              (λ _.
                from-Ends (hash_reset p req.password_hash) _
                  (λ h v. is_some h ≡ is_some req.password_hash) (hash_reset-some req.password_hash)
                  (λ h w v u s e.
                    let c : blocks p req.state || is_some h ≡ true = rw s b in
                    (transaction-gone id (record req { password_hash = h }) w.now c).at w v u
                      e))))))

  -- An admin's update that succeeds, and that blocks the user or resets the password, leaves no
  -- session of that user.
  pub update_user-no_session :
      (admin : User) (id : ℕ) (req : UserPatch) (u : User) (w v : World)
      → update_user p admin id req w ≡ (ok u, v)
      → blocks p req.state || is_some req.password_hash ≡ true
      → any (λ s. s.user_id == id) v.db.sessions ≡ false
  update_user-no_session admin id req u w v h b = (update_user-Ends admin id req b).at w v u h
