-- ===== src/Tables/Groups.antt =====
-- `namespaces` and `group_members`, with the triggers of migrations 0003 and 0005.
pub mod Owners
pub mod Created
use rgit.Common.{
  ℕ, suc, Str, text, Bool, false, not, ◌&&◌, ◌==◌, Option, none, some, List, [], ◌∷◌, ℤ, pos, eq_ℤ,
  any, find, retain, map, length, is_some, str_eq, nocase, if◌then◌else◌, ltb,
}
use rgit.Error.{db, aborted, unique_violation, foreign_key_violation, row_not_found}
use rgit.Result.{Result, ok, err}
use rgit.Perm.{level_from_i32}
use rgit.Models.{Namespace, GroupMember}
use rgit.Store.{Db}

abbrev pub owner_text : Str
owner_text = text "group must retain at least one owner"

-- The rowid of a new row: one more than the highest.
abbrev pub next_id {ℓ} : {A : Type ℓ} → (A → ℕ) → List A → ℕ
next_id id [] = 1
next_id id (x ∷ xs) = if ltb (id x) (next_id id xs) then next_id id xs else suc (id x)

abbrev pub group_kind : Str
group_kind = text "group"

abbrev pub user_kind : Str
user_kind = text "user"

abbrev pub is_group : ℕ → Namespace → Bool
is_group id n = n.id == id && str_eq n.kind group_kind

-- WHERE namespace_id = ? AND user_id = ?
abbrev pub is_member : ℕ → ℕ → GroupMember → Bool
is_member ns user_id m = m.namespace_id == ns && m.user_id == user_id

abbrev pub is_owner : ℕ → GroupMember → Bool
is_owner ns m = m.namespace_id == ns && eq_ℤ m.access_level (pos 50)

-- Another owner of the same group.
abbrev pub other_owner : GroupMember → GroupMember → Bool
other_owner old m = is_owner old.namespace_id m && not (m.user_id == old.user_id)

-- protect_last_group_owner_delete: whether the deletion of the row is refused.
abbrev pub last_owner : Db → GroupMember → Bool
last_owner d old =
    eq_ℤ old.access_level (pos 50)
    && any (λ n. n.id == old.namespace_id) d.namespaces
    && not (any (other_owner old) d.group_members)

-- protect_last_group_owner_update
abbrev pub demotes_last_owner : Db → ℤ → GroupMember → Bool
demotes_last_owner d level old = last_owner d old && not (eq_ℤ level (pos 50))

abbrev set_level : ℕ → ℕ → ℤ → GroupMember → GroupMember
set_level ns user_id level m =
    if is_member ns user_id m then record m { access_level = level } else m

abbrev insert_or_update : ℕ → ℕ → ℤ → Db → Result (Unit {0} × Db)
insert_or_update ns user_id level d =
    if any (is_member ns user_id) d.group_members
    then (if any (λ m. is_member ns user_id m && demotes_last_owner d level m) d.group_members
        then err (db (aborted owner_text))
        else ok (tt, record d { group_members = map (set_level ns user_id level) d.group_members }))
    else if any (λ u. u.id == user_id) d.users
    then ok (
      tt,
      record d {
        group_members =
            record { namespace_id = ns; user_id = user_id; access_level = level } ∷ d.group_members;
      },
    )
    else err (db foreign_key_violation)

-- INSERT INTO group_members … ON CONFLICT (namespace_id, user_id) DO UPDATE
unfoldable pub upsert_group_member : ℕ → ℕ → ℤ → Db → Result (Unit {0} × Db)
upsert_group_member ns user_id level d =
    if not (any (is_group ns) d.namespaces)
    then err (db (aborted (text "group membership requires group namespace")))
    else if not (is_some (level_from_i32 level))
    then err (db (aborted (text "invalid group access level")))
    else insert_or_update ns user_id level d

-- INSERT INTO group_members with no ON CONFLICT clause
unfoldable pub insert_group_member : ℕ → ℕ → ℤ → Db → Result (Unit {0} × Db)
unfolding upsert_group_member
insert_group_member ns user_id level d =
    if any (is_member ns user_id) d.group_members
    then err (db unique_violation)
    else upsert_group_member ns user_id level d

-- DELETE FROM group_members WHERE namespace_id = ? AND user_id = ?; the number of rows deleted
unfoldable pub delete_group_member : ℕ → ℕ → Db → Result (ℕ × Db)
delete_group_member ns user_id d =
    if any (λ m. is_member ns user_id m && last_owner d m) d.group_members
    then err (db (aborted owner_text))
    else ok (
      length (retain (is_member ns user_id) d.group_members),
      record d { group_members = retain (λ m. not (is_member ns user_id m)) d.group_members },
    )

-- INSERT INTO namespaces … RETURNING *; `path` is unique up to ASCII case.
unfoldable pub insert_namespace : Namespace → Db → Result (Namespace × Db)
insert_namespace n d =
    if any (λ m. nocase m.path n.path) d.namespaces
    then err (db unique_violation)
    else (let row = record n { id = next_id (λ (m : Namespace). m.id) d.namespaces } in
        ok (row, record d { namespaces = row ∷ d.namespaces }))

-- DELETE FROM namespaces WHERE id = ? AND kind = 'group': its members go with it, and a project in
-- it holds it back.
unfoldable pub delete_group : ℕ → Db → Result (ℕ × Db)
delete_group id d =
    if any (is_group id) d.namespaces
    then (if any (λ p. p.namespace_id == id) d.projects
        then err (db foreign_key_violation)
        else ok (
          length (retain (is_group id) d.namespaces),
          record d {
            namespaces = retain (λ n. not (is_group id n)) d.namespaces;
            group_members = retain (λ m. not (m.namespace_id == id)) d.group_members;
          },
        ))
    else ok (0, d)

-- UPDATE namespaces SET name, path, description = COALESCE(…) WHERE id = ? AND kind = 'group'
abbrev pub coalesce {ℓ} : {A : Type ℓ} → Option A → A → A
coalesce none a = a
coalesce (some b) a = b

abbrev pub patch_namespace : Option Str → Option Str → Option Str → ℕ → Namespace → Namespace
patch_namespace name path description now n = record n {
  name = coalesce name n.name;
  path = coalesce path n.path;
  description = coalesce description n.description;
  updated_at = now;
}

abbrev path_taken : ℕ → Option Str → List Namespace → Bool
path_taken id none rows = false
path_taken id (some p) rows = any (λ n. nocase n.path p && not (n.id == id)) rows

unfoldable pub update_group :
    ℕ → Option Str → Option Str → Option Str → ℕ → Db → Result (Namespace × Db)
update_group id name path description now d = elim (find (is_group id) d.namespaces) [
  | none ↦ err (db row_not_found)
  | some n ↦
      if path_taken id path d.namespaces
      then err (db unique_violation)
      else ok (
        patch_namespace name path description now n,
        record d {
          namespaces =
              map (λ m. if is_group id m then patch_namespace name path description now m else m)
                d.namespaces;
        },
      )
]
