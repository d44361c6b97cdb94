-- ===== src/Tables/Invariant.antt =====
-- The transactions on users, namespaces and groups as a step relation, and what every sequence of
-- them keeps. The handlers' transactions interleave only as whole steps.
pub mod Rows
pub mod Steps
pub mod Runs
use rgit.Common.{
  ℕ, ◌≡◌, refl, sym, subst, Str, Bool, true, false, not, ◌&&◌, ◌==◌, Option, none, some, List, [],
  ◌∷◌, ℤ, pos, any, find, retain, map, arith, Bool-cases, Option-cases, inl, inr, if◌then◌else◌,
  str_eq, text,
}
use rgit.Error.{Error}
use rgit.Result.{Result, ok, err}
use rgit.Models.{User, Namespace, GroupMember}
use rgit.Store.{Db}
use rgit.Tables.Keys.{Distinct, Distinct-retain, Distinct-map, fresh-next_id, has_id}
use rgit.Tables.Groups.{
  is_group, is_member, user_kind, patch_namespace, upsert_group_member, insert_group_member,
  delete_group_member, insert_namespace, delete_group, update_group, next_id,
}
use rgit.Tables.Groups.Owners.{
  HasOwner, IsGroup, AllOwned, upsert-AllOwned, insert-AllOwned, delete-AllOwned,
  delete_group-AllOwned,
}
use rgit.Tables.Groups.Created.{
  AllOwnedBut, insert_namespace-eq-ok, insert_namespace-AllOwnedBut, create-AllOwned,
  update_group-AllOwned,
}
use rgit.Tables.Users.{
  UserPatch, patch_user, insert_user, update_user, delete_user, is_owned, cascade,
}
use rgit.Tables.Users.Admins.{
  HasAdmin, update_user-HasAdmin, delete_user-HasAdmin, insert_user-HasAdmin, delete_user-AllOwned,
}

pub data Step (d d' : Db) : Type 0 where
  set_member :
      (ns user_id : ℕ) (level : ℤ)
      → upsert_group_member ns user_id level d ≡ ok (tt, d')
      → Step d d'
  remove_member : (ns user_id n : ℕ) → delete_group_member ns user_id d ≡ ok (n, d') → Step d d'
  remove_group : (id n : ℕ) → delete_group id d ≡ ok (n, d') → Step d d'
  rename_group :
      (id : ℕ) (name path description : Option Str) (now : ℕ) (n : Namespace)
      → update_group id name path description now d ≡ ok (n, d')
      → Step d d'
  create_group :
      (n row : Namespace) (user_id : ℕ) (m : Db)
      → insert_namespace n d ≡ ok (row, m)
      → insert_group_member row.id user_id (pos 50) m ≡ ok (tt, d')
      → Step d d'
  autocreate_group :
      (n row : Namespace) (user_id : ℕ) (m : Db)
      → insert_namespace n d ≡ ok (row, m)
      → upsert_group_member row.id user_id (pos 50) m ≡ ok (tt, d')
      → Step d d'
  create_user :
      (u r : User) (n row : Namespace) (m : Db)
      → n.kind ≡ user_kind
      → insert_user u d ≡ ok (r, m)
      → insert_namespace n m ≡ ok (row, d')
      → Step d d'
  change_user :
      (id : ℕ) (p : UserPatch) (now : ℕ) (r : Option User)
      → update_user id p now d ≡ ok (r, d')
      → Step d d'
  remove_user : (id n : ℕ) → delete_user id d ≡ ok (n, d') → Step d d'
  elsewhere :
      d'.users ≡ d.users
      → d'.namespaces ≡ d.namespaces
      → d'.group_members ≡ d.group_members
      → Step d d'

pub data Reach (d : Db) : Db → Type 0 where
  here : Reach d d
  next : {m d' : Db} → Reach d m → Step m d' → Reach d d'

pub record Invariant (d : Db) : Type 0 where
  pub admin : HasAdmin d
  pub owned : AllOwned d
  pub user_ids : Distinct (λ (u : User). u.id) d.users
  pub namespace_ids : Distinct (λ (n : Namespace). n.id) d.namespaces
