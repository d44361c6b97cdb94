-- ===== src/Members/Escalation.antt =====
-- No member hands out or takes away a level above the own one.
use rgit.Common.{
  subst, ◌≢◌, ℕ, ◌≤◌, ◌≡◌, Str, true, false, not, ◌==◌, some, ℤ, pos, leb_ℤ, arith, Memᴰ,
}
use rgit.Error.{not_found}
use rgit.Result.{ok}
use rgit.Perm.{AccessLevel, level_from_i32, level_le, maintainer, level_value}
use rgit.Models.{User, Project, ProjectMember}
use rgit.Store.{Db, World, query, execute, check, ◌>>=◌}
use rgit.Store.Calls.{bind-eq-ok, execute-eq-ok}
use rgit.Auth.Authorize.{effective_access_level, effective_level}
use rgit.Tables.Projects.{upsert_project_member, delete_project_member}
use rgit.Locate.{locate}
use rgit.Locate.Named.{locate-Found}
use rgit.Members.Written.{IsOf, SetsLevel, OnePerUser, upsert-SetsLevel, not_above}
use rgit.Members.{
  set_level, add_to, remove_from, caller_level, level_of, is_above, add, check_remove, remove,
}

-- The level at which a caller who is no admin acts.
abbrev pub ActsAt : Db → User → Project → AccessLevel → Type 0
ActsAt d user p v = (effective_level d user.id p ≡ some v) × (level_le maintainer v ≡ true)

caller_level-ActsAt :
    (user : User) (p : Project) (w v : World) (l : AccessLevel)
    → user.is_admin ≡ false
    → caller_level user p w ≡ (ok l, v)
    → ActsAt w.db user p l × (v.db ≡ w.db)
unfolding caller_level effective_access_level query
caller_level-ActsAt user p w v l f h = ground arith

-- What a change of a member's row needs, beside the caller's level: an admin may do it anyway.
module _ (user : User) (f : user.is_admin ≡ false) where
  set_level-eq-ok :
      (p : Project) (user_id : ℕ) (level : ℤ) (l : AccessLevel) (w v : World)
      → set_level user p user_id level l w ≡ (ok tt, v)
      → (leb_ℤ level (pos (level_value l)) ≡ true)
        × (is_above l (level_of p.id user_id w.db) ≡ false)
        × (upsert_project_member p.id user_id level w.db ≡ ok (tt, v.db))
  unfolding query execute level_from_i32
  set_level-eq-ok p user_id level l w v h = (ground arith, ground arith, ground arith)

  -- A caller who is no admin and whose request to set a member's level succeeds is at least a
  -- maintainer of the project, and neither the level that is set nor one that it replaces, in a table with one row for
  -- each project and user, is above the caller's own. Afterwards the member has a row, with that level, the rows of
  -- others are as before, and so are all other tables.
  pub add-no_escalation :
      (id : Str) (user_id : ℕ) (level : ℤ) (w v : World)
      → add user id user_id level w ≡ (ok tt, v)
      → OnePerUser w.db.project_members
      → (p : Project) × (l : AccessLevel) × Memᴰ p w.db.projects
        × ActsAt w.db user p l
        × (leb_ℤ level (pos (level_value l)) ≡ true)
        × ((m : ProjectMember) (k : AccessLevel)
            → Memᴰ m w.db.project_members
            → IsOf p.id user_id m
            → m.access_level ≡ pos (level_value k)
            → level_value k ≤ level_value l)
        × SetsLevel p.id user_id level w.db v.db
  unfolding add
  add-no_escalation id user_id level w v h one =
      let (p, x, a, b) = bind-eq-ok (locate id) (add_to user user_id level) w h in
      let (mem, same) = locate-Found id w x p a in
      let (l, y, c, d) = bind-eq-ok (caller_level user p) (set_level user p user_id level) x b in
      let (acts, same') = caller_level-ActsAt user p x y l f c in
      let e : y.db ≡ w.db = cc in
      let (s, t, u) = set_level-eq-ok p user_id level l y v d in
      let above : is_above l (level_of p.id user_id w.db) ≡ false = rw (← e) t in
      (
        p,
        l,
        mem,
        rw (← same) acts,
        s,
        λ m k row is level_of_row. not_above w.db p.id user_id l k m one above row is level_of_row,
        upsert-SetsLevel p.id user_id level w.db v.db (rw (← e) u),
      )

  check_remove-ActsAt :
      (p : Project) (member_id : ℕ) (w v : World)
      → check_remove false user p member_id w ≡ (ok tt, v)
      → (l : AccessLevel) × ActsAt w.db user p l
        × (is_above l (level_of p.id member_id w.db) ≡ false)
        × (v.db ≡ w.db)
  unfolding query
  check_remove-ActsAt p member_id w v h =
      let (l, y, c, d) = bind-eq-ok (caller_level user p) _ w h in
      let (acts, same) = caller_level-ActsAt user p w y l f c in
      let t : is_above l (level_of p.id member_id y.db) ≡ false = ground arith in
      let e : v.db ≡ y.db = ground arith in (l, acts, rw (← same) t, cc)

  -- A caller who is no admin and whose request to remove another member succeeds is at least a
  -- maintainer of the project, and the removed row's level is not above the caller's own.
  pub remove-no_escalation :
      (id : Str) (member_id : ℕ) (w v : World)
      → remove user id member_id w ≡ (ok tt, v)
      → member_id == user.id ≡ false
      → (p : Project) × (l : AccessLevel) × (n : ℕ) × Memᴰ p w.db.projects
        × ActsAt w.db user p l
        × (is_above l (level_of p.id member_id w.db) ≡ false)
        × (delete_project_member p.id member_id w.db ≡ ok (n, v.db))
        × (n ≢ 0)
  unfolding remove
  remove-no_escalation id member_id w v h ne =
      let (p, x, a, b) = bind-eq-ok (locate id) (remove_from user member_id) w h in
      let (mem, same) = locate-Found id w x p a in
      let (_, y, c, d) =
        bind-eq-ok (check_remove (member_id == user.id) user p member_id)
          (λ _.
            execute (delete_project_member p.id member_id)
            >>= (λ affected. check (not (affected == 0)) not_found))
          x b in
      let c' : check_remove false user p member_id x ≡ (ok tt, y) =
        subst (λ q. check_remove q user p member_id x ≡ (ok tt, y)) ne c in
      let (l, acts, above, same') = check_remove-ActsAt p member_id x y c' in
      let (n, z, g, k) =
        bind-eq-ok (execute (delete_project_member p.id member_id))
          (λ affected. check (not (affected == 0)) not_found) y d in
      let (del, _, _) = execute-eq-ok (delete_project_member p.id member_id) y z g in
      let e : y.db ≡ w.db = cc in
      let del' : delete_project_member p.id member_id y.db ≡ ok (n, v.db) = ground arith in
      (p, l, n, mem, rw (← same) acts, rw (← same) above, rw (← e) del', λ zero. ground arith)
