-- ===== src/Tables/Invariant/Rows.antt =====
-- What each transaction leaves of the other tables, and the ids of its rows.
use rgit.Common.{
  ℕ, ◌≡◌, Str, not, ◌==◌, Option, ◌∷◌, ℤ, pos, any, find, retain, map, arith, Bool-cases,
  Option-cases, inl, inr, if◌then◌else◌,
}
use rgit.Result.{ok}
use rgit.Models.{User, Namespace}
use rgit.Store.{Db}
use rgit.Tables.Keys.{Distinct, Distinct-retain, Distinct-map, fresh-next_id}
use rgit.Tables.Groups.{
  is_group, patch_namespace, upsert_group_member, insert_group_member, delete_group_member,
  insert_namespace, delete_group, update_group, next_id,
}
use rgit.Tables.Groups.Created.{insert_namespace-eq-ok}
use rgit.Tables.Users.{UserPatch, patch_user, insert_user, update_user, delete_user, is_owned}

-- What a statement on the groups leaves of the users, and one on the users of the rest.
module _ (d d' : Db) where
  pub upsert-users :
      (ns user_id : ℕ) (level : ℤ)
      → upsert_group_member ns user_id level d ≡ ok (tt, d')
      → (d'.users ≡ d.users) × (d'.namespaces ≡ d.namespaces)
  unfolding upsert_group_member
  upsert-users ns user_id level h = (ground arith, ground arith)

  pub insert-upsert :
      (ns user_id : ℕ)
      → insert_group_member ns user_id (pos 50) d ≡ ok (tt, d')
      → upsert_group_member ns user_id (pos 50) d ≡ ok (tt, d')
  unfolding insert_group_member
  insert-upsert ns user_id h = ground arith

  pub remove-users :
      (ns user_id n : ℕ)
      → delete_group_member ns user_id d ≡ ok (n, d')
      → (d'.users ≡ d.users) × (d'.namespaces ≡ d.namespaces)
  unfolding delete_group_member
  remove-users ns user_id n h = (ground arith, ground arith)

  pub remove_group-ids :
      (id n : ℕ)
      → delete_group id d ≡ ok (n, d')
      → Distinct (λ (n : Namespace). n.id) d.namespaces
      → (d'.users ≡ d.users) × Distinct (λ (n : Namespace). n.id) d'.namespaces
  unfolding delete_group
  remove_group-ids id n h k = elim (Bool-cases (any (is_group id) d.namespaces)) [
    | inr f ↦ let same : d' ≡ d = ground arith in (rw same, rw same k)
    | inl t ↦
        let rows : d'.namespaces ≡ retain (λ r. not (is_group id r)) d.namespaces = ground arith in
        (
          ground arith,
          rw rows
              (Distinct-retain (λ (r : Namespace). r.id) (λ r. not (is_group id r)) d.namespaces k),
        )
  ]

  pub rename_group-ids :
      (id : ℕ) (name path description : Option Str) (now : ℕ) (n : Namespace)
      → update_group id name path description now d ≡ ok (n, d')
      → Distinct (λ (n : Namespace). n.id) d.namespaces
      → (d'.users ≡ d.users) × Distinct (λ (n : Namespace). n.id) d'.namespaces
  unfolding update_group
  rename_group-ids id name path description now n h k =
      elim (Option-cases (find (is_group id) d.namespaces)) [
        | inl e ↦ absurd (ground arith)
        | inr (m, e) ↦
            let f = λ (r : Namespace).
              if is_group id r then patch_namespace name path description now r else r in
            let rows : d'.namespaces ≡ map f d.namespaces = ground arith in
            (
              ground arith,
              rw rows (Distinct-map (λ (r : Namespace). r.id) f (λ r. ground arith) d.namespaces k),
            )
      ]

  pub new-ids :
      (n row : Namespace)
      → insert_namespace n d ≡ ok (row, d')
      → Distinct (λ (n : Namespace). n.id) d.namespaces
      → (d'.users ≡ d.users) × Distinct (λ (n : Namespace). n.id) d'.namespaces
  new-ids n row h k =
      let (rows, _, i, users) = insert_namespace-eq-ok n row d d' h in
      (users, rw rows (rw i (fresh-next_id (λ (n : Namespace). n.id) d.namespaces), k))

  pub new_user-ids :
      (u r : User)
      → insert_user u d ≡ ok (r, d')
      → Distinct (λ (u : User). u.id) d.users
      → (d'.namespaces ≡ d.namespaces)
        × (d'.group_members ≡ d.group_members)
        × Distinct (λ (u : User). u.id) d'.users
  unfolding insert_user
  new_user-ids u r h k =
      let rows : d'.users ≡ r ∷ d.users = ground arith in
      let i : r.id ≡ next_id (λ (u : User). u.id) d.users = ground arith in
      (ground arith, ground arith, rw rows (rw i (fresh-next_id (λ (u : User). u.id) d.users), k))

  pub change_user-ids :
      (id : ℕ) (p : UserPatch) (now : ℕ) (r : Option User)
      → update_user id p now d ≡ ok (r, d')
      → Distinct (λ (u : User). u.id) d.users
      → (d'.namespaces ≡ d.namespaces)
        × (d'.group_members ≡ d.group_members)
        × Distinct (λ (u : User). u.id) d'.users
  unfolding update_user
  change_user-ids id p now r h k = elim (Option-cases (find (λ (u : User). u.id == id) d.users)) [
    | inl e ↦ let same : d' ≡ d = ground arith in (rw same, rw same, rw same k)
    | inr (m, e) ↦
        let f = λ (u : User). if u.id == id then patch_user p now u else u in
        let rows : d'.users ≡ map f d.users = ground arith in
        (
          ground arith,
          ground arith,
          rw rows (Distinct-map (λ (u : User). u.id) f (λ u. ground arith) d.users k),
        )
  ]

  pub remove_user-ids :
      (id n : ℕ)
      → delete_user id d ≡ ok (n, d')
      → Distinct (λ (u : User). u.id) d.users
      → Distinct (λ (n : Namespace). n.id) d.namespaces
      → Distinct (λ (u : User). u.id) d'.users × Distinct (λ (n : Namespace). n.id) d'.namespaces
  unfolding delete_user
  remove_user-ids id n h k l =
      let users : d'.users ≡ retain (λ u. not (u.id == id)) d.users = ground arith in
      let rest : d'.namespaces ≡ retain (λ n. not (is_owned id n)) d.namespaces = ground arith in
      (
        rw users (Distinct-retain (λ (u : User). u.id) (λ u. not (u.id == id)) d.users k),
        rw rest
            (Distinct-retain (λ (n : Namespace). n.id) (λ n. not (is_owned id n)) d.namespaces l),
      )
