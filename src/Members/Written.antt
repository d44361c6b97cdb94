-- ===== src/Members/Written.antt =====
-- What setting a member's level does to the table of members, and what it replaces.
use rgit.Common.{
  ℕ, ◌≤◌, ◌≡◌, refl, sym, ap, subst, Bool, true, false, ◌∷◌, ◌⊎◌, ◌≢◌, inl, inr, none, some, List,
  [], map, find, any, ℤ, pos, if◌then◌else◌, Memᴰ, Mem-of_any, Mem-map, map-Mem, any-false,
  find-Mem, arith, Bool-cases, Option-cases,
}
use rgit.Result.{ok}
use rgit.Perm.{
  AccessLevel, level_from_i32, level_value, guest, reporter, developer, maintainer, owner,
}
use rgit.Models.{ProjectMember}
use rgit.Store.{Db}
use rgit.Auth.Authorize.{of_project}
use rgit.Tables.Projects.{upsert_project_member}
use rgit.Members.{level_of, is_above}

-- The row of a user in a project.
abbrev pub IsOf : ℕ → ℕ → ProjectMember → Type 0
IsOf project_id user_id m = (m.project_id ≡ project_id) × (m.user_id ≡ user_id)

-- The tables `e` are `d` but that the user's level in the project is the given one.
pub record SetsLevel (project_id user_id : ℕ) (value : ℤ) (d e : Db) : Type 0 where
  pub row : (m : ProjectMember) × Memᴰ m e.project_members × IsOf project_id user_id m
  pub level :
      (m : ProjectMember)
      → Memᴰ m e.project_members
      → IsOf project_id user_id m
      → m.access_level ≡ value
  pub others :
      (m : ProjectMember)
      → (m.project_id ≢ project_id) ⊎ (m.user_id ≢ user_id)
      → (Memᴰ m d.project_members → Memᴰ m e.project_members)
        × (Memᴰ m e.project_members → Memᴰ m d.project_members)
  pub tables : record d { project_members = e.project_members } ≡ e

module _ (project_id user_id : ℕ) (level : ℤ) where
  abbrev set_row : ProjectMember → ProjectMember
  set_row m = if of_project project_id user_id m then record m { access_level = level } else m

  set_row-IsOf :
      (m : ProjectMember)
      → IsOf project_id user_id (set_row m)
      → set_row m ≡ record m { access_level = level }
  set_row-IsOf m h = ground arith

  set_row-other :
      (m : ProjectMember)
      → (m.project_id ≢ project_id) ⊎ (m.user_id ≢ user_id)
      → of_project project_id user_id m ≡ false
  set_row-other m (inl n) = elim (Bool-cases (of_project project_id user_id m)) [
    | inl t ↦ absurd (n (ground arith))
    | inr f ↦ f
  ]
  set_row-other m (inr n) = elim (Bool-cases (of_project project_id user_id m)) [
    | inl t ↦ absurd (n (ground arith))
    | inr f ↦ f
  ]

  set_row-from_other :
      (m a : ProjectMember)
      → (m.project_id ≢ project_id) ⊎ (m.user_id ≢ user_id)
      → m ≡ set_row a
      → m ≡ a
  set_row-from_other m a (inl n) e = elim (Bool-cases (of_project project_id user_id a)) [
    | inl t ↦ absurd (n (ground arith))
    | inr f ↦ ground arith
  ]
  set_row-from_other m a (inr n) e = elim (Bool-cases (of_project project_id user_id a)) [
    | inl t ↦ absurd (n (ground arith))
    | inr f ↦ ground arith
  ]

  updated-SetsLevel :
      (d e : Db)
      → any (of_project project_id user_id) d.project_members ≡ true
      → record d { project_members = map set_row d.project_members } ≡ e
      → SetsLevel project_id user_id level d e
  updated-SetsLevel d e t h =
      let table : map set_row d.project_members ≡ e.project_members =
        ap (λ (q : Db). q.project_members) h in
      let (a, m, own) = Mem-of_any (of_project project_id user_id) d.project_members t in
      record {
        row = (
          set_row a,
          subst (Memᴰ (set_row a)) table (Mem-map set_row d.project_members a m),
          ground arith,
        );
        level = λ b k i.
            let (c, _, same) = map-Mem set_row d.project_members b (subst (Memᴰ b) (sym table) k) in
            ground arith;
        others = λ b n. (
          (λ k. subst (Memᴰ b) table (
              let same : set_row b ≡ b = rw (set_row-other b n) refl in
              subst (λ c. Memᴰ c (map set_row d.project_members)) same
                (Mem-map set_row d.project_members b k))),
          (λ k.
              let (c, o, same) =
                map-Mem set_row d.project_members b (subst (Memᴰ b) (sym table) k) in
              subst (λ q. Memᴰ q d.project_members) (sym (set_row-from_other b c n same)) o),
        );
        tables = ground arith;
      }

  abbrev new_row : ProjectMember
  new_row = record { project_id = project_id; user_id = user_id; access_level = level }

  inserted-SetsLevel :
      (d e : Db)
      → any (of_project project_id user_id) d.project_members ≡ false
      → record d { project_members = new_row ∷ d.project_members } ≡ e
      → SetsLevel project_id user_id level d e
  inserted-SetsLevel d e f h =
      let table : new_row ∷ d.project_members ≡ e.project_members =
        ap (λ (q : Db). q.project_members) h in
      record {
        row = (new_row, subst (Memᴰ new_row) table (Memᴰ.head refl), (refl, refl));
        level = λ b k i. elim (subst (Memᴰ b) (sym table) k) [
          | Memᴰ.head q ↦ ap (λ (m : ProjectMember). m.access_level) q
          | Memᴰ.tail o ↦
              absurd
                (ground (arith, any-false (of_project project_id user_id) d.project_members b f o))
        ];
        others = λ b n. (
          (λ k. subst (Memᴰ b) table (Memᴰ.tail k)),
          (λ k. elim (subst (Memᴰ b) (sym table) k) [
            | Memᴰ.head q ↦ absurd (ground (arith, set_row-other b n))
            | Memᴰ.tail o ↦ o
          ]),
        );
        tables = ground arith;
      }

  pub upsert-SetsLevel :
      (d e : Db)
      → upsert_project_member project_id user_id level d ≡ ok (tt, e)
      → SetsLevel project_id user_id level d e
  unfolding upsert_project_member
  upsert-SetsLevel d e h =
      elim (Bool-cases (any (of_project project_id user_id) d.project_members)) [
        | inl t ↦ updated-SetsLevel d e t (ground arith)
        | inr f ↦ inserted-SetsLevel d e f (ground arith)
      ]

-- (project_id, user_id) is the primary key.
abbrev pub OnePerUser : List ProjectMember → Type 0
OnePerUser rows =
    (m n : ProjectMember)
    → Memᴰ m rows
    → Memᴰ n rows
    → m.project_id ≡ n.project_id
    → m.user_id ≡ n.user_id
    → m ≡ n

level_from_i32-value : (k : AccessLevel) → level_from_i32 (pos (level_value k)) ≡ some k
unfolding level_from_i32
level_from_i32-value guest = refl
level_from_i32-value reporter = refl
level_from_i32-value developer = refl
level_from_i32-value maintainer = refl
level_from_i32-value owner = refl

find-none :
    (p : ProjectMember → Bool) (rows : List ProjectMember) (m : ProjectMember)
    → find p rows ≡ none
    → Memᴰ m rows
    → p m ≡ false
find-none p [] m h k = elim k [ ]
find-none p (r ∷ rows) m h (Memᴰ.head e) = rw e (ground arith)
find-none p (r ∷ rows) m h (Memᴰ.tail k) = find-none p rows m (ground arith) k

-- A level that the code does not find above the caller's is not.
pub not_above :
    (d : Db) (project_id user_id : ℕ) (l k : AccessLevel) (m : ProjectMember)
    → OnePerUser d.project_members
    → is_above l (level_of project_id user_id d) ≡ false
    → Memᴰ m d.project_members
    → IsOf project_id user_id m
    → m.access_level ≡ pos (level_value k)
    → level_value k ≤ level_value l
not_above d project_id user_id l k m one h mem is e =
    elim (Option-cases (find (of_project project_id user_id) d.project_members)) [
      | inl n ↦
          absurd
            (ground (arith, find-none (of_project project_id user_id) d.project_members m n mem))
      | inr (o, found) ↦
          let (mem', t) = find-Mem (of_project project_id user_id) d.project_members o found in
          let same : m ≡ o = one m o mem mem' (ground arith) (ground arith) in
          ground (arith, level_from_i32-value k)
    ]
