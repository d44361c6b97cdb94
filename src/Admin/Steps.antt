-- ===== src/Admin/Steps.antt =====
-- The handlers of admin.rs as steps of the database's relation.
use rgit.Common.{
  str_eq, subst, not, contains, text, find, ◌==◌, ◌&&◌, ℕ, ◌≡◌, refl, Str, Bool, true, false,
  Option, none, some, arith, ◌||◌,
}
use rgit.Error.{not_found, invalid}
use rgit.Result.{Result, ok}
use rgit.Models.{active, blocked, User}
use rgit.PathSegment.{is_reserved_root, validate_path_segment}
use rgit.Store.{World, pure, query, execute, lift, check, ◌>>=◌}
use rgit.Store.Calls.{bind-eq-ok, execute-eq-ok}
use rgit.Auth.Token.{now}
use rgit.Auth.Password.{hash_password_async, Bcrypt}
use rgit.Tables.Groups.{insert_namespace}
use rgit.Tables.Users.{is_active_admin, UserPatch, insert_user, update_user as update_row}
use rgit.Tables.Invariant.{
  Reach, here, next, create_user as created_user, change_user, remove_user, elsewhere, Invariant,
}
use rgit.Tables.Invariant.Runs.{
  Runs, bind-Runs, pure-Runs, lift-Runs, require-Runs, query-Runs, execute-Runs, map_err-Runs,
  transaction-Runs, check-Runs, map_err-eq-ok, Runs-Invariant,
}
use rgit.Admin.{
  Passwords, policy, map_admin_invariant, user_taken, new_user, user_namespace, user_row,
  create_rows, demotes, namespace_row, create_user, hash_reset, check_email, check_state, blocks,
  keep_admin, delete_sessions, kill_sessions, write_user, update_user, delete_user,
}

hash_password_async-Runs : (b : Bcrypt) (p : Str) (n : ℕ) → Runs (hash_password_async b p n)
unfolding hash_password_async
hash_password_async-Runs b p n = record { at = λ w. here }

created : (u : User) (r : User) (w v : World) → create_rows u w ≡ (ok r, v) → Reach w.db v.db
created u r w v h =
    let (row, x, a, b) =
      bind-eq-ok (user_row u) (λ user. namespace_row user >>= (λ _. pure user)) w h in
    let (i, _, _) =
      execute-eq-ok (insert_user u) w x
        (map_err-eq-ok user_taken (execute (insert_user u)) w x a) in
    let (n, y, c, d) = bind-eq-ok (namespace_row row) (λ _. pure row) x b in
    let (j, _, _) = execute-eq-ok (insert_namespace (user_namespace row)) x y c in
    let e : y ≡ v = cc in
    let k : insert_namespace (user_namespace row) x.db ≡ ok (n, v.db) = ground arith in
    next here (created_user u row (user_namespace row) n x.db refl i k)

kill_sessions-Runs : (p : Passwords) (b : Bool) (id : ℕ) → Runs (kill_sessions p b id)
kill_sessions-Runs p false id = pure-Runs tt
kill_sessions-Runs p true id =
    bind-Runs (execute (delete_sessions p id)) _
      (execute-Runs (delete_sessions p id)
        (λ a d d' e. elsewhere (ground arith) (ground arith) (ground arith)))
      (λ _. pure-Runs tt)

module _ (p : Passwords) where
  create_user-Runs :
      (username email name password : Str) (is_admin : Bool)
      → Runs (create_user p username email name password is_admin)
  unfolding create_user
  create_user-Runs username email name password is_admin =
      bind-Runs (lift (validate_path_segment username)) _ (lift-Runs _) (λ _.
        bind-Runs (check (not (is_reserved_root username)) (invalid (text "username is reserved")))
          _ (check-Runs _ _)
          (λ _.
            bind-Runs (check (contains b'@' email) (invalid (text "invalid email"))) _
              (check-Runs _ _)
              (λ _. bind-Runs (lift (policy p password)) _ (lift-Runs _) (λ _.
                bind-Runs (hash_password_async p.bcrypt password p.cost) _
                  (hash_password_async-Runs _ _ _)
                  (λ hash.
                    transaction-Runs (create_rows (new_user username email name hash is_admin))
                      (λ r w v h. created (new_user username email name hash is_admin) r w v h))))))

  check_email-Runs : (e : Option Str) → Runs (check_email p e)
  check_email-Runs none = pure-Runs tt
  check_email-Runs (some e) = check-Runs _ _

  check_state-Runs : (b : Bool) (s : Option Str) → Runs (check_state p b s)
  check_state-Runs b none = pure-Runs tt
  check_state-Runs b (some s) =
      bind-Runs
        (check (str_eq s active || str_eq s blocked)
          (invalid (text "state must be active or blocked")))
        _ (check-Runs _ _) (λ _. check-Runs _ _)

  keep_admin-Runs : (b : Bool) → Runs (keep_admin p b)
  keep_admin-Runs false = pure-Runs tt
  keep_admin-Runs true = bind-Runs _ _ (query-Runs _) (λ _. check-Runs _ _)

  hash_reset-Runs : (s : Option Str) → Runs (hash_reset p s)
  hash_reset-Runs none = pure-Runs none
  hash_reset-Runs (some s) = bind-Runs (lift (policy p s)) _ (lift-Runs _) (λ _.
      bind-Runs (hash_password_async p.bcrypt s p.cost) _ (hash_password_async-Runs _ _ _)
        (λ hash. pure-Runs (some hash)))

  write_user-Runs : (id : ℕ) (patch : UserPatch) (t : ℕ) → Runs (write_user p id patch t)
  write_user-Runs id patch t =
      bind-Runs _ _
        (map_err-Runs map_admin_invariant _
          (execute-Runs (update_row id patch t) (λ r d d' e. change_user id patch t r e)))
        (λ row.
          bind-Runs _ _ (require-Runs row not_found)
            (λ user. bind-Runs _ _ (kill_sessions-Runs p _ id) (λ _. pure-Runs user)))

  update_user-Runs : (admin : User) (id : ℕ) (req : UserPatch) → Runs (update_user p admin id req)
  unfolding update_user
  update_user-Runs admin id req = bind-Runs _ _ (check_email-Runs req.email) (λ _.
      bind-Runs _ _ (check_state-Runs _ req.state) (λ _.
        bind-Runs (query (λ d. find (λ (u : User). u.id == id) d.users)) _ (query-Runs _) (λ found.
          bind-Runs _ _ (require-Runs found not_found) (λ current.
            bind-Runs
              (keep_admin p
                (is_active_admin current && (demotes p req.is_admin || blocks p req.state)))
              _ (keep_admin-Runs _)
              (λ _. bind-Runs _ _ (hash_reset-Runs req.password_hash) (λ hash.
                bind-Runs now _ (record { at = λ w. here })
                  (λ t.
                    transaction-Runs (write_user p id (record req { password_hash = hash }) t)
                      (λ u w v h.
                        subst (λ (r : Result User × World). Reach w.db r.1.db) h
                          ((write_user-Runs id (record req { password_hash = hash }) t).at
                            w)))))))))

delete_user-Runs : (admin : User) (id : ℕ) → Runs (delete_user admin id)
unfolding delete_user
delete_user-Runs admin id = bind-Runs _ _ (check-Runs _ _) (λ _. bind-Runs _ _ (query-Runs _) (λ _.
    bind-Runs _ _ (check-Runs _ _) (λ _. bind-Runs _ _ (query-Runs _) (λ _.
      bind-Runs _ _ (check-Runs _ _) (λ _.
        bind-Runs _ _
          (map_err-Runs map_admin_invariant _ (execute-Runs _ (λ n d d' e. remove_user id n e)))
          (λ _. check-Runs _ _))))))

-- Each handler of admin.rs that writes, run by any admin on any request and whichever database calls
-- fail, takes a database with an active admin and an owner for every group to such a database.
pub admin_handlers-Invariant :
    (p : Passwords) (w : World)
    → Invariant w.db
    → ((username email name password : Str) (is_admin : Bool)
        → Invariant (create_user p username email name password is_admin w).1.db)
      × ((admin : User) (id : ℕ) (req : UserPatch) → Invariant (update_user p admin id req w).1.db)
      × ((admin : User) (id : ℕ) → Invariant (delete_user admin id w).1.db)
admin_handlers-Invariant p w v = (
  λ username email name password is_admin.
      Runs-Invariant _ w (create_user-Runs p username email name password is_admin) v,
  λ admin id req. Runs-Invariant _ w (update_user-Runs p admin id req) v,
  λ admin id. Runs-Invariant _ w (delete_user-Runs admin id) v,
)
