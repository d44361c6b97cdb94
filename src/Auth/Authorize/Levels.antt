-- ===== src/Auth/Authorize/Levels.antt =====
-- The effective level is the highest of a user's levels.
use rgit.Common.{
  ℕ, true, ◌≡◌, inl, inr, some, List, [], ◌∷◌, ◌++◌, ℤ, pos, leb_ℤ, max_ℤ, leb-max_left,
  leb-max_right, leb_ℤ_refl, leb_ℤ_trans, arith, All, Bool-cases, Option-cases, Memᴰ,
  Mem-append_cases, Mem-append_left, Mem-append_right, selected-Mem, Mem-selected, All-Mem,
}
use rgit.Perm.{AccessLevel, owner, level_value, level_from_i32}
use rgit.Models.{Namespace, Project, ProjectMember, GroupMember}
use rgit.Store.{Db}
use rgit.Auth.Authorize.{
  sql_max, member_levels, group_levels, owner_levels, of_project, of_group, owned_by, all_levels,
  effective_level,
}

-- `l` is one of the levels that the user holds on the project: of a project member, of a member of
-- the group that the project is in, or of the owner of its namespace.
pub data Holds (d : Db) (user_id : ℕ) (p : Project) (l : ℤ) : Type 0 where
  as_member :
      (m : ProjectMember)
      → Memᴰ m d.project_members
      → m.project_id ≡ p.id
      → m.user_id ≡ user_id
      → l ≡ m.access_level
      → Holds d user_id p l
  as_group_member :
      (m : GroupMember)
      → Memᴰ m d.group_members
      → m.namespace_id ≡ p.namespace_id
      → m.user_id ≡ user_id
      → l ≡ m.access_level
      → Holds d user_id p l
  as_owner :
      (n : Namespace)
      → Memᴰ n d.namespaces
      → n.id ≡ p.namespace_id
      → n.owner_user_id ≡ some user_id
      → l ≡ pos 50
      → Holds d user_id p l

-- MAX over rows: an element, and none is higher; NULL only over no rows.
pub sql_max-Mem : (ls : List ℤ) (m : ℤ) → sql_max ls ≡ some m → Memᴰ m ls
unfolding sql_max
sql_max-Mem [] m h = ground arith
sql_max-Mem (l ∷ ls) m h = elim (Option-cases (sql_max ls)) [
  | inl e ↦ Memᴰ.head (ground arith)
  | inr (k, e) ↦ elim (Bool-cases (leb_ℤ l k)) [
    | inl t ↦ Memᴰ.tail (sql_max-Mem ls m (ground arith))
    | inr f ↦ Memᴰ.head (ground arith)
  ]
]

pub sql_max-bound :
    (ls : List ℤ) (l : ℤ) → Memᴰ l ls → (m : ℤ) × (sql_max ls ≡ some m) × (leb_ℤ l m ≡ true)
unfolding sql_max
sql_max-bound [] l h = elim h [ ]
sql_max-bound (x ∷ ls) l (Memᴰ.head e) = elim (Option-cases (sql_max ls)) [
  | inl n ↦ (x, ground arith, ground (arith, leb_ℤ_refl x))
  | inr (k, s) ↦ (max_ℤ x k, ground arith, ground (arith, leb-max_left x k))
]
sql_max-bound (x ∷ ls) l (Memᴰ.tail h) =
    let (k, s, b) = sql_max-bound ls l h in
    (max_ℤ x k, ground arith, leb_ℤ_trans l k (max_ℤ x k) b (leb-max_right x k))

module _ (d : Db) (user_id : ℕ) (p : Project) where
  all_levels_sound : (l : ℤ) → Memᴰ l (all_levels d user_id p) → Holds d user_id p l
  all_levels_sound l m =
      elim (Mem-append_cases (member_levels d user_id p)
        (group_levels d user_id p ++ owner_levels d user_id p) m) [
          | inl k ↦
              let (row, k', t, e) =
                selected-Mem (of_project p.id user_id) (λ r. r.access_level) d.project_members l
                  k in
              as_member row k' (ground arith) (ground arith) e
          | inr right ↦
              elim (Mem-append_cases (group_levels d user_id p) (owner_levels d user_id p) right) [
                | inl k ↦
                    let (row, k', t, e) =
                      selected-Mem (of_group p.namespace_id user_id) (λ r. r.access_level)
                        d.group_members l k in
                    as_group_member row k' (ground arith) (ground arith) e
                | inr k ↦
                    let (row, k', t, e) =
                      selected-Mem (owned_by p.namespace_id user_id) (λ n. pos 50) d.namespaces l
                        k in
                    as_owner row k' (ground arith) (ground arith) e
              ]
        ]

  all_levels_complete : (l : ℤ) → Holds d user_id p l → Memᴰ l (all_levels d user_id p)
  all_levels_complete l (as_member row m e₁ e₂ e) = Mem-append_left (member_levels d user_id p) _ (
      rw e (
        Mem-selected (of_project p.id user_id) (λ r. r.access_level) d.project_members row m
          (ground arith)))
  all_levels_complete l (as_group_member row m e₁ e₂ e) =
      Mem-append_right (member_levels d user_id p) _ (
        Mem-append_left (group_levels d user_id p) _ (
          rw e (
            Mem-selected (of_group p.namespace_id user_id) (λ r. r.access_level) d.group_members row
              m (ground arith))))
  all_levels_complete l (as_owner row m e₁ e₂ e) = Mem-append_right (member_levels d user_id p) _ (
      Mem-append_right (group_levels d user_id p) _ (
        rw e (
          Mem-selected (owned_by p.namespace_id user_id) (λ n. pos 50) d.namespaces row m
            (ground arith))))

-- What the triggers of migration 0005 keep true of the membership tables.
abbrev pub IsLevel : ℤ → Type 0
IsLevel l = (v : AccessLevel) × (l ≡ pos (level_value v))

pub record HasLevels (d : Db) : Type 0 where
  pub projects : All (λ m. IsLevel m.access_level) d.project_members
  pub groups : All (λ m. IsLevel m.access_level) d.group_members

pub Holds-IsLevel :
    (d : Db) (user_id : ℕ) (p : Project) (l : ℤ) → HasLevels d → Holds d user_id p l → IsLevel l
Holds-IsLevel d user_id p l h (as_member row m e₁ e₂ e) =
    rw e (All-Mem (λ r. IsLevel r.access_level) d.project_members row h.projects m)
Holds-IsLevel d user_id p l h (as_group_member row m e₁ e₂ e) =
    rw e (All-Mem (λ r. IsLevel r.access_level) d.group_members row h.groups m)
Holds-IsLevel d user_id p l h (as_owner row m e₁ e₂ e) = (owner, e)

level_from_i32_lem : (v : AccessLevel) → level_from_i32 (pos (level_value v)) ≡ some v
unfolding level_from_i32
level_from_i32_lem v = ground arith

level_from_i32_sound :
    (l : ℤ) (v : AccessLevel) → level_from_i32 l ≡ some v → l ≡ pos (level_value v)
unfolding level_from_i32
level_from_i32_sound l v h = ground arith

module _ (d : Db) (user_id : ℕ) (p : Project) where
  -- The effective level is one that the user holds, and no level that the user holds is higher.
  pub effective_level-highest :
      (v : AccessLevel)
      → effective_level d user_id p ≡ some v
      → Holds d user_id p (pos (level_value v))
        × ((l : ℤ) → Holds d user_id p l → leb_ℤ l (pos (level_value v)) ≡ true)
  unfolding effective_level
  effective_level-highest v h = elim (Option-cases (sql_max (all_levels d user_id p))) [
    | inl e ↦ ground arith
    | inr (m, e) ↦
        let same : m ≡ pos (level_value v) = level_from_i32_sound m v (ground arith) in
        (
          rw (← same) (all_levels_sound d user_id p m (sql_max-Mem _ m e)),
          λ l k.
              let (m', e', b) = sql_max-bound _ l (all_levels_complete d user_id p l k) in
              ground arith,
        )
  ]

  -- While the tables hold valid levels only, a user with any level has an effective level.
  pub effective_level-some :
      (l : ℤ)
      → HasLevels d
      → Holds d user_id p l
      → (v : AccessLevel) × (effective_level d user_id p ≡ some v)
  unfolding effective_level
  effective_level-some l h k =
      let (m, e, b) = sql_max-bound _ l (all_levels_complete d user_id p l k) in
      let (v, s) =
        Holds-IsLevel d user_id p m h (all_levels_sound d user_id p m (sql_max-Mem _ m e)) in
      (v, ground (arith, level_from_i32_lem v))
