-- ===== src/Tables/Invariant/Steps.antt =====
-- Each transaction keeps the invariant.
use rgit.Common.{ℕ, ◌≡◌, refl, subst, true, false, ◌∷◌, pos, any, arith, str_eq}
use rgit.Result.{ok}
use rgit.Models.{User, Namespace}
use rgit.Store.{Db}
use rgit.Tables.Keys.{Distinct}
use rgit.Tables.Groups.{is_group, user_kind, group_kind, insert_namespace, upsert_group_member}
use rgit.Tables.Groups.Owners.{
  IsGroup, AllOwned, upsert-AllOwned, delete-AllOwned, delete_group-AllOwned,
}
use rgit.Tables.Groups.Created.{
  insert_namespace-eq-ok, insert_namespace-kind, insert_namespace-AllOwnedBut, create-AllOwned,
  update_group-AllOwned,
}
use rgit.Tables.Users.Admins.{
  update_user-HasAdmin, delete_user-HasAdmin, insert_user-HasAdmin, delete_user-AllOwned,
}
use rgit.Tables.Invariant.{
  Step, set_member, remove_member, remove_group, rename_group, create_group, autocreate_group,
  create_user, change_user, remove_user, elsewhere, Reach, here, next, Invariant,
}
use rgit.Tables.Invariant.Rows.{
  upsert-users, insert-upsert, remove-users, remove_group-ids, rename_group-ids, new-ids,
  new_user-ids, change_user-ids, remove_user-ids,
}

abbrev UserIds : Db → Type 0
UserIds d = Distinct (λ (u : User). u.id) d.users

abbrev NamespaceIds : Db → Type 0
NamespaceIds d = Distinct (λ (n : Namespace). n.id) d.namespaces

-- Equal tables have equal properties.
moved :
    (d d' : Db)
    → d'.namespaces ≡ d.namespaces
    → d'.group_members ≡ d.group_members
    → AllOwned d
    → AllOwned d'
moved d d' n m inv = record {
  at = λ g e. let before : IsGroup d g = rw (← n) e in rw m (inv.at g before);
}

-- A namespace of a user is no group.
new_user-AllOwned :
    (n row : Namespace) (d d' : Db)
    → n.kind ≡ user_kind
    → AllOwned d
    → insert_namespace n d ≡ ok (row, d')
    → AllOwned d'
unfolding str_eq
new_user-AllOwned n row d d' kind inv h = record {
  at = λ g e.
      let (rows, members, _, _) = insert_namespace-eq-ok n row d d' h in
      let e' : any (is_group g) (row ∷ d.namespaces) ≡ true =
        subst (λ r. any (is_group g) r ≡ true) rows e in
      let k : row.kind ≡ n.kind = insert_namespace-kind n row d d' h in
      let no : str_eq row.kind group_kind ≡ false = rw k (rw kind refl) in
      let before : IsGroup d g = ground arith in rw members (inv.at g before);
}

created :
    (d m d' : Db) (n row : Namespace) (user_id : ℕ)
    → Invariant d
    → insert_namespace n d ≡ ok (row, m)
    → upsert_group_member row.id user_id (pos 50) m ≡ ok (tt, d')
    → Invariant d'
created d m d' n row user_id v h k =
    let (users, ids) = new-ids d m n row h v.namespace_ids in
    let (users', spaces) = upsert-users m d' row.id user_id (pos 50) k in
    record {
      admin = rw users' (rw users v.admin);
      owned =
          create-AllOwned row.id user_id m d' (insert_namespace-AllOwnedBut n row d m v.owned h) k;
      user_ids = rw users' (rw users v.user_ids);
      namespace_ids = rw spaces ids;
    }

pub Step-Invariant : {d d' : Db} → Step d d' → Invariant d → Invariant d'
Step-Invariant {d} {d'} (set_member ns user_id level h) v =
    let (users, spaces) = upsert-users d d' ns user_id level h in
    record {
      admin = rw users v.admin;
      owned = upsert-AllOwned ns user_id level d d' v.owned h;
      user_ids = rw users v.user_ids;
      namespace_ids = rw spaces v.namespace_ids;
    }
Step-Invariant {d} {d'} (remove_member ns user_id n h) v =
    let (users, spaces) = remove-users d d' ns user_id n h in
    record {
      admin = rw users v.admin;
      owned = delete-AllOwned ns user_id n d d' v.owned h;
      user_ids = rw users v.user_ids;
      namespace_ids = rw spaces v.namespace_ids;
    }
Step-Invariant {d} {d'} (remove_group id n h) v =
    let (users, ids) = remove_group-ids d d' id n h v.namespace_ids in
    record {
      admin = rw users v.admin;
      owned = delete_group-AllOwned id n d d' v.owned h;
      user_ids = rw users v.user_ids;
      namespace_ids = ids;
    }
Step-Invariant {d} {d'} (rename_group id name path description now n h) v =
    let (users, ids) = rename_group-ids d d' id name path description now n h v.namespace_ids in
    record {
      admin = rw users v.admin;
      owned = update_group-AllOwned id name path description now n d d' v.owned h;
      user_ids = rw users v.user_ids;
      namespace_ids = ids;
    }
Step-Invariant {d} {d'} (create_group n row user_id m h k) v =
    created d m d' n row user_id v h (insert-upsert m d' row.id user_id k)
Step-Invariant {d} {d'} (autocreate_group n row user_id m h k) v =
    created d m d' n row user_id v h k
Step-Invariant {d} {d'} (create_user u r n row m kind h k) v =
    let (spaces, members, ids) = new_user-ids d m u r h v.user_ids in
    let before : NamespaceIds m = rw spaces v.namespace_ids in
    let (users, ids') = new-ids m d' n row k before in
    record {
      admin = rw users (insert_user-HasAdmin u r d m v.admin h);
      owned = new_user-AllOwned n row m d' kind (moved d m spaces members v.owned) k;
      user_ids = rw users ids;
      namespace_ids = ids';
    }
Step-Invariant {d} {d'} (change_user id p now r h) v =
    let (spaces, members, ids) = change_user-ids d d' id p now r h v.user_ids in
    record {
      admin = update_user-HasAdmin d v.user_ids v.admin id p now r d' h;
      owned = moved d d' spaces members v.owned;
      user_ids = ids;
      namespace_ids = rw spaces v.namespace_ids;
    }
Step-Invariant {d} {d'} (remove_user id n h) v =
    let (ids, ids') = remove_user-ids d d' id n h v.user_ids v.namespace_ids in
    record {
      admin = delete_user-HasAdmin d v.user_ids v.admin id n d' h;
      owned = delete_user-AllOwned d v.namespace_ids v.owned id n d' h;
      user_ids = ids;
      namespace_ids = ids';
    }
Step-Invariant {d} {d'} (elsewhere users spaces members) v = record {
  admin = rw users v.admin;
  owned = moved d d' spaces members v.owned;
  user_ids = rw users v.user_ids;
  namespace_ids = rw spaces v.namespace_ids;
}

-- From a database with an active admin and an owner for every group, every sequence of the
-- transactions leads to such a database. (User and namespace ids stay distinct too.)
pub Reach-Invariant : {d d' : Db} → Reach d d' → Invariant d → Invariant d'
Reach-Invariant here v = v
Reach-Invariant (next r s) v = Step-Invariant s (Reach-Invariant r v)
