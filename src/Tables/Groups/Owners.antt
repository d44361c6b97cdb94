-- ===== src/Tables/Groups/Owners.antt =====
-- Every group keeps an owner under each statement on the group tables.
use rgit.Common.{
  ℕ, ◌≡◌, Bool, true, false, not, ◌&&◌, ◌==◌, List, [], ◌∷◌, ℤ, pos, eq_ℤ, any, retain, map, arith,
  Bool-cases, inl, inr, Memᴰ, Mem-of_any, any-of_Mem, any-false, Mem-retain, Mem-map, retain-Mem,
}
use rgit.Result.{ok}
use rgit.Models.{Namespace, GroupMember}
use rgit.Store.{Db}
use rgit.Tables.Groups.{
  is_group, is_member, is_owner, other_owner, last_owner, demotes_last_owner, set_level,
  upsert_group_member, insert_group_member, delete_group_member, delete_group,
}

abbrev pub HasOwner : Db → ℕ → Type 0
HasOwner d g = any (is_owner g) d.group_members ≡ true

abbrev pub IsGroup : Db → ℕ → Type 0
IsGroup d g = any (is_group g) d.namespaces ≡ true

-- Every group has an owner.
pub record AllOwned (d : Db) : Type 0 where
  pub at : (g : ℕ) → IsGroup d g → HasOwner d g

pub group-exists :
    (g : ℕ) (rows : List Namespace)
    → any (is_group g) rows ≡ true
    → any (λ n. n.id == g) rows ≡ true
group-exists g [] h = h
group-exists g (n ∷ rows) h = ground (arith, group-exists g rows)

-- An owner that a statement must not remove without another to take its place.
other-of :
    (d : Db) (g : ℕ) (m : GroupMember)
    → IsGroup d g
    → is_owner g m ≡ true
    → last_owner d m ≡ false
    → (k : GroupMember) × Memᴰ k d.group_members
      × (is_owner g k ≡ true)
      × (not (k.user_id == m.user_id) ≡ true)
other-of d g m e o l =
    let (k, mem, t) =
      Mem-of_any (other_owner m) d.group_members (ground (arith, group-exists g d.namespaces)) in
    (k, mem, ground arith, ground arith)

set_level-HasOwner :
    (d : Db) (ns user_id : ℕ) (level : ℤ) (g : ℕ)
    → any (λ m. is_member ns user_id m && demotes_last_owner d level m) d.group_members ≡ false
    → IsGroup d g
    → HasOwner d g
    → any (is_owner g) (map (set_level ns user_id level) d.group_members) ≡ true
set_level-HasOwner d ns user_id level g safe e h =
    let (m, mem, o) = Mem-of_any (is_owner g) d.group_members h in
    elim (Bool-cases (is_member ns user_id m && not (eq_ℤ level (pos 50)))) [
      | inr f ↦
          any-of_Mem (is_owner g) _ (set_level ns user_id level m)
            (Mem-map (set_level ns user_id level) d.group_members m mem) (ground arith)
      | inl t ↦
          let kept : (is_member ns user_id m && demotes_last_owner d level m) ≡ false =
            any-false _ d.group_members m safe mem in
          let (k, mem', o', ne) = other-of d g m e o (ground arith) in
          any-of_Mem (is_owner g) _ (set_level ns user_id level k)
            (Mem-map (set_level ns user_id level) d.group_members k mem') (ground arith)
    ]

pub upsert-namespaces :
    (ns user_id : ℕ) (level : ℤ) (d d' : Db)
    → upsert_group_member ns user_id level d ≡ ok (tt, d')
    → d'.namespaces ≡ d.namespaces
unfolding upsert_group_member
upsert-namespaces ns user_id level d d' h = ground arith

pub upsert-keeps :
    (ns user_id : ℕ) (level : ℤ) (g : ℕ) (d d' : Db)
    → upsert_group_member ns user_id level d ≡ ok (tt, d')
    → IsGroup d g
    → HasOwner d g
    → HasOwner d' g
unfolding upsert_group_member
upsert-keeps ns user_id level g d d' h before owned =
    elim (Bool-cases (any (is_member ns user_id) d.group_members)) [
      | inr f ↦ ground arith
      | inl t ↦
          let safe : any (λ m. is_member ns user_id m && demotes_last_owner d level m)
                d.group_members
              ≡ false =
            ground arith in
          let rows : d'.group_members ≡ map (set_level ns user_id level) d.group_members =
            ground arith in
          rw rows (set_level-HasOwner d ns user_id level g safe before owned)
    ]

pub upsert-AllOwned :
    (ns user_id : ℕ) (level : ℤ) (d d' : Db)
    → AllOwned d
    → upsert_group_member ns user_id level d ≡ ok (tt, d')
    → AllOwned d'
upsert-AllOwned ns user_id level d d' inv h = record {
  at = λ g e.
      let before : IsGroup d g = rw (← (upsert-namespaces ns user_id level d d' h)) e in
      upsert-keeps ns user_id level g d d' h before (inv.at g before);
}

pub insert-AllOwned :
    (ns user_id : ℕ) (level : ℤ) (d d' : Db)
    → AllOwned d
    → insert_group_member ns user_id level d ≡ ok (tt, d')
    → AllOwned d'
unfolding insert_group_member
insert-AllOwned ns user_id level d d' inv h =
    upsert-AllOwned ns user_id level d d' inv (ground arith)

pub retain-HasOwner :
    (d : Db) (g : ℕ) (gone : GroupMember → Bool) (before : IsGroup d g) (owned : HasOwner d g)
    → ((m : GroupMember)
        → Memᴰ m d.group_members
        → gone m ≡ true
        → is_owner g m ≡ true
        → (k : GroupMember) × Memᴰ k d.group_members × (is_owner g k ≡ true) × (gone k ≡ false))
    → any (is_owner g) (retain (λ m. not (gone m)) d.group_members) ≡ true
retain-HasOwner d g gone before owned other =
    let (m, mem, o) = Mem-of_any (is_owner g) d.group_members owned in
    elim (Bool-cases (gone m)) [
      | inr f ↦ any-of_Mem (is_owner g) _ m (Mem-retain _ d.group_members m mem (ground arith)) o
      | inl t ↦
          let (k, mem', o', f) = other m mem t o in
          any-of_Mem (is_owner g) _ k (Mem-retain _ d.group_members k mem' (ground arith)) o'
    ]

pub delete-AllOwned :
    (ns user_id : ℕ) (n : ℕ) (d d' : Db)
    → AllOwned d
    → delete_group_member ns user_id d ≡ ok (n, d')
    → AllOwned d'
unfolding delete_group_member
delete-AllOwned ns user_id n d d' inv h = record {
  at = λ g e.
      let same : d'.namespaces ≡ d.namespaces = ground arith in
      let before : IsGroup d g = rw (← same) e in
      let rows : d'.group_members ≡ retain (λ m. not (is_member ns user_id m)) d.group_members =
        ground arith in
      let safe : any (λ m. is_member ns user_id m && last_owner d m) d.group_members ≡ false =
        ground arith in
      rw rows (
        retain-HasOwner d g (is_member ns user_id) before (inv.at g before) (λ m mem t o.
          let kept : (is_member ns user_id m && last_owner d m) ≡ false =
            any-false _ d.group_members m safe mem in
          let (k, mem', o', ne) = other-of d g m before o (ground arith) in
          (k, mem', o', ground arith)));
}

-- The rows of the other groups stay when a group goes.
group-before :
    (id g : ℕ) (rows : List Namespace)
    → any (is_group g) (retain (λ n. not (is_group id n)) rows) ≡ true
    → (any (is_group g) rows ≡ true) × ((g == id) ≡ false)
group-before id g rows h =
    let (n, mem, t) = Mem-of_any (is_group g) _ h in
    let (mem', f) = retain-Mem _ rows n mem in (any-of_Mem (is_group g) rows n mem' t, ground arith)

pub delete_group-AllOwned :
    (id n : ℕ) (d d' : Db) → AllOwned d → delete_group id d ≡ ok (n, d') → AllOwned d'
unfolding delete_group
delete_group-AllOwned id n d d' inv h = elim (Bool-cases (any (is_group id) d.namespaces)) [
  | inr f ↦ let same : d' ≡ d = ground arith in rw same inv
  | inl t ↦ record {
    at = λ g e.
        let rest : d'.namespaces ≡ retain (λ n. not (is_group id n)) d.namespaces = ground arith in
        let rows : d'.group_members ≡ retain (λ m. not (m.namespace_id == id)) d.group_members =
          ground arith in
        let (before, ne) = group-before id g d.namespaces (rw (← rest) e) in
        rw rows (
          retain-HasOwner d g (λ m. m.namespace_id == id) before (inv.at g before)
            (λ m mem gone o. absurd (ground arith)));
  }
]
