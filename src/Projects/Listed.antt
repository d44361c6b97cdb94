-- ===== src/Projects/Listed.antt =====
-- The list of projects against the access policy.
use rgit.Common.{
  ℕ, ◌≡◌, ◌↔◌, refl, ap, ◌∙◌, subst, true, ◌&&◌, Option, none, some, List, [], ◌∷◌, ℤ, pos, leb_ℤ,
  arith, Bool-cases, inl, inr, any, Memᴰ, Mem-of_any, any-of_Mem, retain-Mem, length, is_some, take,
  drop-Mem, take-Mem, text, drop,
}
use rgit.Error.{invalid}
use rgit.Result.{ok}
use rgit.Perm.{AccessLevel, read, level_value, visibility_from_i32, required_level}
use rgit.Models.{User, Project, active}
use rgit.Store.{Db, World, query, check, pure, ◌>>=◌}
use rgit.Store.Calls.{Healthy, bind-eq-ok, query-eq-ok}
use rgit.Auth.Authorize.{authorize_repo, of_project, of_group, owned_by}
use rgit.Auth.Authorize.Levels.{
  Holds, HasLevels, Holds-IsLevel, as_member, as_group_member, as_owner,
}
use rgit.Auth.Authorize.Policy.{
  May, as_anyone, as_admin, as_user, as_holder, authorize_repo_sound, authorize_repo_complete,
}
use rgit.Auth.Identity.{Identity}
use rgit.Pagination.{from_options, page_of, limit, offset}
use rgit.Projects.{render}
use rgit.Projects.Archived.{render-same}
use rgit.Projects.Created.{check-eq-ok}
use rgit.Projects.Listing.{
  ListQuery, visible, joined, listed, matching, before, insert_row, newest_first, valid_filter,
  render_all, with_total, list,
}

-- The levels that a user holds are those of the joined rows.
joined-Holds :
    (d : Db) (u : User) (p : Project) → joined d (some u) p ≡ true → (l : ℤ) × Holds d u.id p l
joined-Holds d u p h = elim (Bool-cases (any (of_project p.id u.id) d.project_members)) [
  | inl t ↦
      let (m, k, e) = Mem-of_any (of_project p.id u.id) d.project_members t in
      (m.access_level, as_member m k (ground arith) (ground arith) refl)
  | inr f ↦ elim (Bool-cases (any (of_group p.namespace_id u.id) d.group_members)) [
    | inl t ↦
        let (m, k, e) = Mem-of_any (of_group p.namespace_id u.id) d.group_members t in
        (m.access_level, as_group_member m k (ground arith) (ground arith) refl)
    | inr g ↦
        let (n, k, e) = Mem-of_any (owned_by p.namespace_id u.id) d.namespaces (ground arith) in
        (pos 50, as_owner n k (ground arith) (ground arith) refl)
  ]
]

Holds-joined :
    (d : Db) (u : User) (p : Project) (l : ℤ) → Holds d u.id p l → joined d (some u) p ≡ true
Holds-joined d u p l (as_member m k e₁ e₂ e) =
    ground (arith, any-of_Mem (of_project p.id u.id) d.project_members m k)
Holds-joined d u p l (as_group_member m k e₁ e₂ e) =
    ground (arith, any-of_Mem (of_group p.namespace_id u.id) d.group_members m k)
Holds-joined d u p l (as_owner n k e₁ e₂ e) =
    ground (arith, any-of_Mem (owned_by p.namespace_id u.id) d.namespaces n k)

abbrev pub IsActive : Option User → Type 0
IsActive none = Unit
IsActive (some u) = u.state ≡ active

abbrev pub HasVisibility : Project → Type 0
HasVisibility p = is_some (visibility_from_i32 p.visibility) ≡ true

level-ge-guest : (v : AccessLevel) → leb_ℤ (pos 10) (pos (level_value v)) ≡ true
level-ge-guest v = ground arith

module _ (d : Db) (p : Project) (shown : HasVisibility p) where
  visible-May :
      (caller : Option User)
      → HasLevels d
      → IsActive caller
      → visible d caller p ≡ true
      → May d caller p read
  unfolding visible visibility_from_i32 required_level
  visible-May none levels a h = as_anyone refl refl (ground arith)
  visible-May (some u) levels a h = elim (Bool-cases u.is_admin) [
    | inl t ↦ as_admin u refl a t refl
    | inr f ↦ elim (Bool-cases (leb_ℤ (pos 10) p.visibility)) [
      | inl t ↦ as_user u refl a refl (ground arith)
      | inr g ↦
          let (l, k) = joined-Holds d u p (ground arith) in
          let (v, e) = Holds-IsLevel d u.id p l levels k in
          as_holder u l refl a k (rw e (level-ge-guest v)) refl
    ]
  ]

  May-visible : (caller : Option User) → May d caller p read → visible d caller p ≡ true
  unfolding visible
  May-visible none (as_anyone e r s) = ground arith
  May-visible (some u) (as_anyone e r s) = cc
  May-visible none (as_admin u e s t o) = cc
  May-visible (some x) (as_admin u e s t o) = ground arith
  May-visible none (as_user u e s r t) = cc
  May-visible (some x) (as_user u e s r t) = ground arith
  May-visible none (as_holder u l e s k t o) = cc
  May-visible (some x) (as_holder u l e s k t o) =
      let same : u ≡ x = cc in
      ground (arith, Holds-joined d x p l (subst (λ y. Holds d y.id p l) same k))

-- In a database with valid levels that answers, a project with a valid visibility is one that the list
-- shows to a caller, an active user or nobody, exactly if `authorize_repo` lets the caller read it.
pub visible-authorize_repo_iff :
    (caller : Option User) (p : Project) (w : World)
    → Healthy w
    → HasLevels w.db
    → HasVisibility p
    → IsActive caller
    → (visible w.db caller p ≡ true) ↔ ((authorize_repo caller p read w).0 ≡ ok tt)
visible-authorize_repo_iff caller p w healthy levels shown a =
    let run = authorize_repo caller p read w in
    (
      λ t.
          authorize_repo_complete p read w healthy caller levels
            (visible-May w.db p shown caller levels a t),
      λ e. May-visible w.db p shown caller (authorize_repo_sound p read caller w run.1 (rw e refl)),
    )

insert_row-Mem :
    (p : Project) (rows : List Project) (q : Project)
    → Memᴰ q (insert_row p rows)
    → Memᴰ q (p ∷ rows)
insert_row-Mem p [] q m = m
insert_row-Mem p (r ∷ rows) q m = elim (Bool-cases (before p r)) [
  | inl t ↦ rw t at m
  | inr f ↦ behind (insert_row-Mem p rows q) (rw f at m)
]
  where
    behind :
        (Memᴰ q (insert_row p rows) → Memᴰ q (p ∷ rows))
        → Memᴰ q (r ∷ insert_row p rows)
        → Memᴰ q (p ∷ r ∷ rows)
    behind ih (Memᴰ.head e) = Memᴰ.tail (Memᴰ.head e)
    behind ih (Memᴰ.tail k) = elim (ih k) [
      | Memᴰ.head e ↦ Memᴰ.head e
      | Memᴰ.tail l ↦ Memᴰ.tail (Memᴰ.tail l)
    ]

newest_first-Mem : (rows : List Project) (q : Project) → Memᴰ q (newest_first rows) → Memᴰ q rows
newest_first-Mem [] q m = m
newest_first-Mem (p ∷ rows) q m = elim (insert_row-Mem p (newest_first rows) q m) [
  | Memᴰ.head e ↦ Memᴰ.head e
  | Memᴰ.tail k ↦ Memᴰ.tail (newest_first-Mem rows q k)
]

render_all-same :
    (rows out : List Project) (w v : World) → render_all rows w ≡ (ok out, v) → out ≡ rows
render_all-same [] out w v h = cc
render_all-same (p ∷ rows) out w v h =
    let rest = λ (r : Project). render_all rows >>= (λ rest. pure (r ∷ rest)) in
    let (r, w1, h1, k1) = bind-eq-ok (render p) rest w h in
    let (tail, w2, h2, k2) = bind-eq-ok (render_all rows) (λ rest. pure (r ∷ rest)) w1 k1 in
    let (same, _) = render-same p r w w1 h1 in cc (render_all-same rows tail w1 w2 h2)

with_total-same :
    (n : ℕ) (found rows : List Project) (total : ℕ) (w v : World)
    → with_total n found w ≡ (ok (rows, total), v)
    → (rows ≡ found) × (total ≡ n)
with_total-same n found rows total w v h =
    let (out, x, h1, k1) = bind-eq-ok (render_all found) (λ out. pure (out, n)) w h in
    (subst (λ r. r ≡ found) (ground arith) (render_all-same found out w x h1), ground arith)

list-listed :
    (identity : Identity) (q : ListQuery) (rows : List Project) (total : ℕ) (w v : World)
    → list identity q w ≡ (ok (rows, total), v)
    → (rows ≡ page_of (from_options q.page q.per_page) (newest_first (listed identity.user q w.db)))
      × (total ≡ length (listed identity.user q w.db))
unfolding list
list-listed identity q rows total w v h =
    let count = λ (d : Db). length (listed identity.user q d) in
    let page = λ (d : Db).
      page_of (from_options q.page q.per_page) (newest_first (listed identity.user q d)) in
    let e = invalid (text "visibility must be 0, 10, or 20") in
    let (_, w1, h1, k1) =
      bind-eq-ok (check (valid_filter q.visibility) e)
        (λ _. query count >>= (λ total. query page >>= with_total total)) w h in
    let (n, w2, h2, k2) =
      bind-eq-ok (query count) (λ total. query page >>= with_total total) w1 k1 in
    let (found, w3, h3, k3) = bind-eq-ok (query page) (with_total n) w2 k2 in
    let (_, s1) = check-eq-ok (valid_filter q.visibility) e w w1 h1 in
    let (e2, s2) = query-eq-ok count w1 w2 h2 in
    let (e3, s3) = query-eq-ok page w2 w3 h3 in
    let (same, counted) = with_total-same n found rows total w3 v k3 in
    let d1 : w1.db ≡ w.db = ap (λ (x : World). x.db) s1 in
    let d2 : w2.db ≡ w.db = s2.db ∙ d1 in (same ∙ e3 ∙ ap page d2, counted ∙ e2 ∙ ap count d1)

-- Every row of a page of the list is a project of the database that the list may show to the caller.
pub list-visible :
    (identity : Identity) (q : ListQuery) (rows : List Project) (total : ℕ) (w v : World)
    (p : Project)
    → list identity q w ≡ (ok (rows, total), v)
    → Memᴰ p rows
    → Memᴰ p w.db.projects × (visible w.db identity.user p ≡ true)
unfolding page_of
list-visible identity q rows total w v p h m =
    let found = newest_first (listed identity.user q w.db) in
    let page = from_options q.page q.per_page in
    let (e, _) = list-listed identity q rows total w v h in
    let m1 : Memᴰ p (take (limit page) (drop (offset page) found)) = subst (Memᴰ p) e m in
    let m2 =
      drop-Mem (offset page) found p (take-Mem (limit page) (drop (offset page) found) p m1) in
    let (k, t) =
      retain-Mem (λ p. visible w.db identity.user p && matching q w.db p) w.db.projects p
        (newest_first-Mem (listed identity.user q w.db) p m2) in
    (k, ground arith)

-- In a database with valid levels that answers, every row of a page of the list whose visibility is valid is a
-- project of the database that `authorize_repo` lets the caller, an active user or nobody, read.
pub list-readable :
    (identity : Identity) (q : ListQuery) (rows : List Project) (total : ℕ) (w v : World)
    (p : Project)
    → list identity q w ≡ (ok (rows, total), v)
    → Healthy w
    → HasLevels w.db
    → IsActive identity.user
    → Memᴰ p rows
    → HasVisibility p
    → Memᴰ p w.db.projects × ((authorize_repo identity.user p read w).0 ≡ ok tt)
list-readable identity q rows total w v p h healthy levels a m shown =
    let (mem, t) = list-visible identity q rows total w v p h m in
    (mem, (visible-authorize_repo_iff identity.user p w healthy levels shown a).0 t)
