-- ===== src/Tables/Groups/Created.antt =====
-- A group that is created with its owner, and one that is renamed.
use rgit.Common.{
  ℕ, ◌≡◌, refl, sym, subst, ◌∙◌, Str, Bool, true, false, ◌==◌, Option, List, [], ◌∷◌, pos, any,
  find, map, arith, Bool-cases, Option-cases, inl, inr, Mem-of_any, any-of_Mem, Mem-map,
  if◌then◌else◌,
}
use rgit.Result.{ok}
use rgit.Models.{Namespace}
use rgit.Store.{Db}
use rgit.Tables.Groups.{
  is_group, is_member, is_owner, set_level, upsert_group_member, insert_namespace, update_group,
  patch_namespace, next_id,
}
use rgit.Tables.Groups.Owners.{upsert-keeps, upsert-namespaces, HasOwner, IsGroup, AllOwned}

any-map :
    (f : Namespace → Namespace) (p : Namespace → Bool)
    → ((n : Namespace) → p (f n) ≡ p n)
    → (rows : List Namespace) → any p (map f rows) ≡ any p rows
any-map f p h [] = refl
any-map f p h (n ∷ rows) = ground (arith, h n, any-map f p h rows)

pub update_group-AllOwned :
    (id : ℕ) (name path description : Option Str) (now : ℕ) (n : Namespace) (d d' : Db)
    → AllOwned d
    → update_group id name path description now d ≡ ok (n, d')
    → AllOwned d'
unfolding update_group
update_group-AllOwned id name path description now n d d' inv h =
    elim (Option-cases (find (is_group id) d.namespaces)) [
      | inl e ↦ absurd (ground arith)
      | inr (m, e) ↦ record {
        at = λ g k.
            let f = λ (r : Namespace).
              if is_group id r then patch_namespace name path description now r else r in
            let rows : d'.namespaces ≡ map f d.namespaces = ground arith in
            let members : d'.group_members ≡ d.group_members = ground arith in
            let before : IsGroup d g =
              sym (any-map f (is_group g) (λ r. ground arith) d.namespaces) ∙ (rw (← rows) k) in
            rw members (inv.at g before);
      }
    ]

-- The upsert of an owner leaves the group with an owner.
pub upsert-HasOwner :
    (ns user_id : ℕ) (d d' : Db)
    → upsert_group_member ns user_id (pos 50) d ≡ ok (tt, d')
    → HasOwner d' ns
unfolding upsert_group_member
upsert-HasOwner ns user_id d d' h = elim (Bool-cases (any (is_member ns user_id) d.group_members)) [
  | inr f ↦ ground arith
  | inl t ↦
      let (m, mem, k) = Mem-of_any (is_member ns user_id) d.group_members t in
      let rows : d'.group_members ≡ map (set_level ns user_id (pos 50)) d.group_members =
        ground arith in
      rw rows (
        any-of_Mem (is_owner ns) _ (set_level ns user_id (pos 50) m)
          (Mem-map (set_level ns user_id (pos 50)) d.group_members m mem) (ground arith))
]

-- What a new namespace row leaves alone.
pub insert_namespace-eq-ok :
    (n row : Namespace) (d d' : Db)
    → insert_namespace n d ≡ ok (row, d')
    → (d'.namespaces ≡ row ∷ d.namespaces)
      × (d'.group_members ≡ d.group_members)
      × (row.id ≡ next_id (λ (m : Namespace). m.id) d.namespaces)
      × (d'.users ≡ d.users)
unfolding insert_namespace
insert_namespace-eq-ok n row d d' h = ground arith

-- All groups but the new one are owned.
pub record AllOwnedBut (new : ℕ) (d : Db) : Type 0 where
  pub at : (g : ℕ) → (g == new) ≡ false → IsGroup d g → HasOwner d g

pub insert_namespace-AllOwnedBut :
    (n row : Namespace) (d d' : Db)
    → AllOwned d
    → insert_namespace n d ≡ ok (row, d')
    → AllOwnedBut row.id d'
insert_namespace-AllOwnedBut n row d d' inv h = record {
  at = λ g ne e.
      let (rows, members, _, _) = insert_namespace-eq-ok n row d d' h in
      let e' : any (is_group g) (row ∷ d.namespaces) ≡ true =
        subst (λ r. any (is_group g) r ≡ true) rows e in
      rw members (inv.at g (ground arith));
}

-- A new group, with the row that makes its creator the owner.
pub create-AllOwned :
    (new user_id : ℕ) (d d' : Db)
    → AllOwnedBut new d
    → upsert_group_member new user_id (pos 50) d ≡ ok (tt, d')
    → AllOwned d'
create-AllOwned new user_id d d' inv h = record {
  at = λ g e. elim (Bool-cases (g == new)) [
    | inl same ↦ let eq : g ≡ new = ground arith in rw eq (upsert-HasOwner new user_id d d' h)
    | inr ne ↦
        let before : IsGroup d g =
          subst (λ r. any (is_group g) r ≡ true) (upsert-namespaces new user_id (pos 50) d d' h)
            e in
        upsert-keeps new user_id (pos 50) g d d' h before (inv.at g ne before)
  ];
}

pub insert_namespace-kind :
    (n row : Namespace) (d d' : Db) → insert_namespace n d ≡ ok (row, d') → row.kind ≡ n.kind
unfolding insert_namespace
insert_namespace-kind n row d d' h = ground arith
