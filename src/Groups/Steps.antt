-- ===== src/Groups/Steps.antt =====
-- The handlers of groups.rs as steps of the database's relation.
use rgit.Common.{ℕ, ◌≡◌, Str, Bool, true, false, Option, none, some, ℤ, pos, arith, ◌==◌}
use rgit.Result.{ok}
use rgit.PathSegment.{validate_path_segment}
use rgit.Models.{User, Namespace}
use rgit.Store.{World, M, pure, execute, map_err, lift, ◌>>=◌, ◌>>◌}
use rgit.Store.Calls.{bind-eq-ok, execute-eq-ok}
use rgit.Error.{not_found}
use rgit.Auth.Token.{now}
use rgit.Tables.Groups.{insert_group_member, insert_namespace}
use rgit.Tables.Invariant.{
  Reach, here, next, set_member, remove_member as removed_member, remove_group, rename_group,
  create_group, Invariant,
}
use rgit.Tables.Invariant.Runs.{
  Runs, bind-Runs, pure-Runs, lift-Runs, require-Runs, query-Runs, execute-Runs, map_err-Runs,
  transaction-Runs, check-Runs, if-Runs, map_err-eq-ok, Runs-Invariant,
}
use rgit.Groups.{
  locate_group_id, locate_group, group_level, require_owner, require_self_or_owner, keep_owner,
  check_path, optional, validate_name, path_taken_error, new_group, add_member, remove_member,
  create, update, delete,
}

locate_group_id-Runs : (id : ℕ) → Runs (locate_group_id id)
unfolding locate_group_id
locate_group_id-Runs id = bind-Runs _ _ (query-Runs _) (λ g. require-Runs g not_found)

locate_group-Runs : (id : Str) → Runs (locate_group id)
unfolding locate_group
locate_group-Runs id = bind-Runs _ _ (query-Runs _) (λ g. require-Runs g not_found)

group_level-Runs : (id user_id : ℕ) → Runs (group_level id user_id)
unfolding group_level
group_level-Runs id user_id = query-Runs _

require_owner-Runs : (user : User) (id : ℕ) → Runs (require_owner user id)
require_owner-Runs user id =
    if-Runs user.is_admin _ _ (pure-Runs tt)
      (bind-Runs _ _ (group_level-Runs id user.id) (λ l. check-Runs _ _))

keep_owner-Runs : (id : ℕ) (b : Bool) → Runs (keep_owner id b)
keep_owner-Runs id false = pure-Runs tt
keep_owner-Runs id true = bind-Runs _ _ (query-Runs _) (λ n. check-Runs _ _)

add_member-Runs :
    (user : User) (id user_id : ℕ) (access_level : ℤ)
    → Runs (add_member user id user_id access_level)
unfolding add_member
add_member-Runs user id user_id access_level =
    bind-Runs _ _ (bind-Runs _ _ (locate_group_id-Runs id) (λ _. pure-Runs tt)) (λ _.
      bind-Runs _ _ (require_owner-Runs user id) (λ _. bind-Runs _ _ (check-Runs _ _) (λ _.
        bind-Runs _ _ (group_level-Runs id user_id) (λ existing.
          bind-Runs _ _ (keep_owner-Runs id _) (λ _.
            map_err-Runs _ _
              (execute-Runs _ (λ a d d' e. set_member id user_id access_level e)))))))

require_self_or_owner-Runs :
    (user : User) (id member_id : ℕ) → Runs (require_self_or_owner user id member_id)
require_self_or_owner-Runs user id member_id =
    if-Runs (member_id == user.id) _ _ (pure-Runs tt) (require_owner-Runs user id)

pub remove_member-Runs : (user : User) (id member_id : ℕ) → Runs (remove_member user id member_id)
unfolding remove_member
remove_member-Runs user id member_id =
    bind-Runs _ _ (bind-Runs _ _ (locate_group_id-Runs id) (λ _. pure-Runs tt)) (λ _.
      bind-Runs _ _ (require_self_or_owner-Runs user id member_id) (λ _.
        bind-Runs _ _ (group_level-Runs id member_id) (λ target.
          bind-Runs _ _ (keep_owner-Runs id _) (λ _.
            bind-Runs _ _
              (map_err-Runs _ _ (execute-Runs _ (λ a d d' e. removed_member id member_id a e)))
              (λ _. check-Runs _ _)))))

pub delete-Runs : (user : User) (id : ℕ) → Runs (delete user id)
unfolding delete
delete-Runs user id = bind-Runs _ _ (require_owner-Runs user id) (λ _.
    bind-Runs _ _ (query-Runs _) (λ _. bind-Runs _ _ (check-Runs _ _) (λ _.
      bind-Runs _ _ (execute-Runs _ (λ a d d' e. remove_group id a e)) (λ _. check-Runs _ _))))

check_path-Runs : (path : Option Str) → Runs (check_path path)
check_path-Runs none = pure-Runs tt
check_path-Runs (some path) =
    bind-Runs (lift (validate_path_segment path)) _ (lift-Runs _) (λ _. check-Runs _ _)

pub update-Runs :
    (user : User) (id : Str) (name path description : Option Str)
    → Runs (update user id name path description)
unfolding update
update-Runs user id name path description = bind-Runs _ _ (locate_group-Runs id) (λ group.
    bind-Runs _ _ (require_owner-Runs user group.id) (λ _.
      bind-Runs (lift (optional validate_name name)) _ (lift-Runs _) (λ name'.
        bind-Runs _ _ (check_path-Runs path) (λ _.
          bind-Runs now _ (record { at = λ w. here })
            (λ t.
              map_err-Runs path_taken_error _ (
                execute-Runs _
                  (λ a d d' e. rename_group group.id name' path description t a e)))))))

abbrev new_row : Namespace → M Namespace
new_row n = map_err path_taken_error (execute (insert_namespace n))

abbrev new_owner : ℕ → Namespace → M (Unit {0})
new_owner user_id row = execute (insert_group_member row.id user_id (pos 50))

created :
    (n : Namespace) (user_id : ℕ) (ns : Namespace) (w u : World)
    → (new_row n >>= (λ row. new_owner user_id row >> pure row)) w ≡ (ok ns, u)
    → Reach w.db u.db
created n user_id ns w u h =
    let (row, v, a, b) = bind-eq-ok (new_row n) (λ row. new_owner user_id row >> pure row) w h in
    let (i, _, _) =
      execute-eq-ok (insert_namespace n) w v
        (map_err-eq-ok path_taken_error (execute (insert_namespace n)) w v a) in
    let (_, x, c, d) = bind-eq-ok (new_owner user_id row) (λ _. pure row) v b in
    let (j, _, _) = execute-eq-ok (insert_group_member row.id user_id (pos 50)) v x c in
    let e : x ≡ u = cc in
    let k : insert_group_member row.id user_id (pos 50) v.db ≡ ok (tt, u.db) = ground arith in
    next here (create_group n row user_id v.db i k)

pub create-Runs :
    (user : User) (name path description : Str) → Runs (create user name path description)
unfolding create
create-Runs user name path description =
    bind-Runs (lift (validate_path_segment path)) _ (lift-Runs _) (λ _.
      bind-Runs (lift (validate_name name)) _ (lift-Runs _) (λ name'.
        bind-Runs _ _ (check-Runs _ _) (λ _.
          transaction-Runs _
            (λ ns w u h. created (new_group path name' description) user.id ns w u h))))

-- Each handler of groups.rs that writes, run on any request, by any user and whichever database calls
-- fail, takes a database with an active admin and an owner for every group to such a database.
pub handlers-Invariant :
    (user : User) (w : World)
    → Invariant w.db
    → ((name path description : Str) → Invariant (create user name path description w).1.db)
      × ((id : Str) (name path description : Option Str)
          → Invariant (update user id name path description w).1.db)
      × ((id user_id : ℕ) (level : ℤ) → Invariant (add_member user id user_id level w).1.db)
      × ((id member_id : ℕ) → Invariant (remove_member user id member_id w).1.db)
      × ((id : ℕ) → Invariant (delete user id w).1.db)
handlers-Invariant user w v = (
  λ name path description. Runs-Invariant _ w (create-Runs user name path description) v,
  λ id name path description. Runs-Invariant _ w (update-Runs user id name path description) v,
  λ id user_id level. Runs-Invariant _ w (add_member-Runs user id user_id level) v,
  λ id member_id. Runs-Invariant _ w (remove_member-Runs user id member_id) v,
  λ id. Runs-Invariant _ w (delete-Runs user id) v,
)
