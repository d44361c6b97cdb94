-- ===== src/Tables/Users/Admins.antt =====
-- The instance keeps an active admin, and every group an owner, when users change or go.
use rgit.Common.{
  ℕ, ◌≡◌, refl, subst, Bool, true, false, not, ◌&&◌, ◌||◌, ◌==◌, Option, List, any, find, retain,
  map, arith, Bool-cases, Option-cases, inl, inr, Memᴰ, Mem-of_any, any-of_Mem, any-false, Mem-map,
  Mem-retain, retain-Mem, find-Mem, if◌then◌else◌,
}
use rgit.Result.{ok}
use rgit.Models.{User, Namespace, GroupMember}
use rgit.Store.{Db}
use rgit.Tables.Groups.{is_group, is_owner, other_owner, last_owner}
use rgit.Tables.Groups.Owners.{IsGroup, AllOwned, group-exists, retain-HasOwner}
use rgit.Tables.Keys.{Distinct, Distinct-eq}
use rgit.Tables.Users.{
  is_active_admin, last_admin, insert_user, UserPatch, patch_user, update_user, is_owned,
  delete_user,
}

abbrev pub HasAdmin : Db → Type 0
HasAdmin d = any is_active_admin d.users ≡ true

-- An active admin beside the one that is about to go.
other-admin :
    (d : Db) (u : User)
    → is_active_admin u ≡ true
    → last_admin d u ≡ false
    → (k : User) × Memᴰ k d.users × (is_active_admin k ≡ true) × (not (k.id == u.id) ≡ true)
other-admin d u a l =
    let (k, mem, t) =
      Mem-of_any (λ (r : User). not (r.id == u.id) && is_active_admin r) d.users (ground arith) in
    (k, mem, ground arith, ground arith)

module _ (d : Db) (distinct : Distinct (λ (u : User). u.id) d.users) (admin : HasAdmin d) where
  pub update_user-HasAdmin :
      (id : ℕ) (p : UserPatch) (now : ℕ) (r : Option User) (d' : Db)
      → update_user id p now d ≡ ok (r, d')
      → HasAdmin d'
  unfolding update_user
  update_user-HasAdmin id p now r d' h =
      elim (Option-cases (find (λ (u : User). u.id == id) d.users)) [
        | inl e ↦ let same : d'.users ≡ d.users = ground arith in rw same admin
        | inr (old, e) ↦
            let f = λ (u : User). if u.id == id then patch_user p now u else u in
            let rows : d'.users ≡ map f d.users = ground arith in
            let (mem, t) = find-Mem (λ (u : User). u.id == id) d.users old e in
            let (a, amem, at) = Mem-of_any is_active_admin d.users admin in
            rw rows (elim (Bool-cases (a.id == id)) [
              | inr ne ↦
                  any-of_Mem is_active_admin (map f d.users) (f a) (Mem-map f d.users a amem)
                    (ground arith)
              | inl eq ↦
                  let same : a ≡ old =
                    Distinct-eq (λ (u : User). u.id) d.users a old distinct amem mem
                      (ground arith) in
                  elim (Bool-cases (is_active_admin (patch_user p now old))) [
                    | inl stays ↦
                        any-of_Mem is_active_admin (map f d.users) (f old)
                          (Mem-map f d.users old mem) (ground arith)
                    | inr goes ↦
                        let (k, kmem, ka, kne) =
                          other-admin d old (rw (← same) at) (ground arith) in
                        any-of_Mem is_active_admin (map f d.users) (f k) (Mem-map f d.users k kmem)
                          (ground arith)
                  ]
            ])
      ]

  pub delete_user-HasAdmin : (id n : ℕ) (d' : Db) → delete_user id d ≡ ok (n, d') → HasAdmin d'
  unfolding delete_user
  delete_user-HasAdmin id n d' h =
      let rows : d'.users ≡ retain (λ u. not (u.id == id)) d.users = ground arith in
      let safe : any (λ u. u.id == id && last_admin d u) d.users ≡ false = ground arith in
      let (a, amem, at) = Mem-of_any is_active_admin d.users admin in
      rw rows (elim (Bool-cases (a.id == id)) [
        | inr ne ↦ any-of_Mem is_active_admin _ a (Mem-retain _ d.users a amem (ground arith)) at
        | inl eq ↦
            let kept : (a.id == id && last_admin d a) ≡ false = any-false _ d.users a safe amem in
            let (k, kmem, ka, kne) = other-admin d a at (ground arith) in
            any-of_Mem is_active_admin _ k (Mem-retain _ d.users k kmem (ground arith)) ka
      ])

pub insert_user-HasAdmin :
    (u r : User) (d d' : Db) → HasAdmin d → insert_user u d ≡ ok (r, d') → HasAdmin d'
unfolding insert_user
insert_user-HasAdmin u r d d' a h = ground arith

-- The groups that stay when a user goes are those that the user does not own.
stays :
    (id g : ℕ) (rows : List Namespace)
    → any (is_group g) (retain (λ n. not (is_owned id n)) rows) ≡ true
    → (n : Namespace) × Memᴰ n rows × (is_group g n ≡ true) × (is_owned id n ≡ false)
stays id g rows h =
    let (n, mem, t) = Mem-of_any (is_group g) _ h in
    let (mem', f) = retain-Mem _ rows n mem in (n, mem', t, ground arith)

left-of : (a b : Bool) → (a || b) ≡ true → b ≡ false → a ≡ true
left-of true b h f = refl
left-of false b h f = ground arith

both-false : (a b : Bool) → a ≡ false → b ≡ false → (a || b) ≡ false
both-false a b e f = ground arith

split-other :
    (g : ℕ) (m k : GroupMember)
    → m.namespace_id ≡ g
    → other_owner m k ≡ true
    → (is_owner g k ≡ true) × ((k.user_id == m.user_id) ≡ false)
split-other g m k e h = ground arith

owner-group : (g : ℕ) (k : GroupMember) → is_owner g k ≡ true → k.namespace_id ≡ g
owner-group g k h = ground arith

away :
    (k m : GroupMember) (id : ℕ)
    → (k.user_id == m.user_id) ≡ false
    → (m.user_id == id) ≡ true
    → (k.user_id == id) ≡ false
away k m id h t = ground arith

module _ (d : Db) (distinct : Distinct (λ (n : Namespace). n.id) d.namespaces)
    (inv : AllOwned d) where
  abbrev goes : ℕ → GroupMember → Bool
  goes id m = m.user_id == id || any (λ n. is_owned id n && n.id == m.namespace_id) d.namespaces

  -- The namespace of a group that stays is not one that goes with the user.
  not-owned :
      (id g : ℕ) (n : Namespace)
      → Memᴰ n d.namespaces
      → is_group g n ≡ true
      → is_owned id n ≡ false
      → any (λ k. is_owned id k && k.id == g) d.namespaces ≡ false
  not-owned id g n mem t f =
      elim (Bool-cases (any (λ k. is_owned id k && k.id == g) d.namespaces)) [
        | inr e ↦ e
        | inl e ↦
            let (k, kmem, kt) = Mem-of_any (λ k. is_owned id k && k.id == g) d.namespaces e in
            let same : k ≡ n =
              Distinct-eq (λ (m : Namespace). m.id) d.namespaces k n distinct kmem mem
                (ground arith) in
            absurd (ground arith)
      ]

  -- An owner that goes with its user leaves another behind, in a group that stays.
  survivor :
      (id g : ℕ) (m : GroupMember)
      → is_owner g m ≡ true
      → goes id m ≡ true
      → any (λ k. is_owned id k && k.id == g) d.namespaces ≡ false
      → any (λ r. r.id == g) d.namespaces ≡ true
      → (m.user_id == id && last_owner d m) ≡ false
      → (k : GroupMember) × Memᴰ k d.group_members × (is_owner g k ≡ true) × (goes id k ≡ false)
  survivor id g m o gone none_owned exists kept =
      let same : m.namespace_id ≡ g = ground arith in
      let none_owned' : any (λ k. is_owned id k && k.id == m.namespace_id) d.namespaces ≡ false =
        rw same none_owned in
      let by_user : (m.user_id == id) ≡ true = left-of (m.user_id == id) _ gone none_owned' in
      let exists' : any (λ r. r.id == m.namespace_id) d.namespaces ≡ true = rw same exists in
      let found : any (other_owner m) d.group_members ≡ true = others m o by_user exists' kept in
      let (k, kmem, kt) = Mem-of_any (other_owner m) d.group_members found in
      let (ko, kne) = split-other g m k same kt in
      let ksame : k.namespace_id ≡ g = owner-group g k ko in
      let knone : any (λ r. is_owned id r && r.id == k.namespace_id) d.namespaces ≡ false =
        rw ksame none_owned in
      (k, kmem, ko, both-false (k.user_id == id) _ (away k m id kne by_user) knone)
    where
      others :
          (m : GroupMember)
          → is_owner g m ≡ true
          → (m.user_id == id) ≡ true
          → any (λ r. r.id == m.namespace_id) d.namespaces ≡ true
          → (m.user_id == id && last_owner d m) ≡ false
          → any (other_owner m) d.group_members ≡ true
      others m o b e k = ground arith

  pub delete_user-AllOwned : (id k : ℕ) (d' : Db) → delete_user id d ≡ ok (k, d') → AllOwned d'
  unfolding delete_user
  delete_user-AllOwned id k d' h = record {
    at = λ g e.
        let rest : d'.namespaces ≡ retain (λ n. not (is_owned id n)) d.namespaces = ground arith in
        let rows : d'.group_members ≡ retain (λ m. not (goes id m)) d.group_members =
          ground arith in
        let safe : any (λ m. m.user_id == id && last_owner d m) d.group_members ≡ false =
          ground arith in
        let left : any (is_group g) (retain (λ n. not (is_owned id n)) d.namespaces) ≡ true =
          subst (λ r. any (is_group g) r ≡ true) rest e in
        let (n, mem, t, f) = stays id g d.namespaces left in
        let before : IsGroup d g = any-of_Mem (is_group g) d.namespaces n mem t in
        let none_owned : any (λ k. is_owned id k && k.id == g) d.namespaces ≡ false =
          not-owned id g n mem t f in
        rw rows (
          retain-HasOwner d g (goes id) before (inv.at g before) (λ m mmem gone o.
            survivor id g m o gone none_owned (group-exists g d.namespaces before)
              (any-false _ d.group_members m safe mmem)));
  }
