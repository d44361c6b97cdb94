-- ===== src/Projects/Delete/Undone.antt =====
-- A deletion that fails is undone.
use rgit.Common.{
  ℕ, ◌<◌, ◌≡◌, sym, ap, ◌∙◌, subst, Str, Bool, true, false, [], arith, inl, inr, none, some, Option,
}
use rgit.Error.{Error, db, unavailable, forbidden}
use rgit.Result.{err}
use rgit.Models.{User, Project}
use rgit.Store.{World, ◌>>=◌, query, pure}
use rgit.Store.Reads.{
  Kept, Kept-trans, Reads, if-Reads, bind-Reads, query-Reads, pure-Reads, fail-Reads, check-Reads,
}
use rgit.Store.Calls.{bind-eq-err}
use rgit.Autocreate.{outside}
use rgit.Projects.Delete.{
  exists, trash_of, move_all, delete_row, directories, remove_project, delete, remove_if_owner,
}
use rgit.Projects.Delete.Restored.{SameDirs}
use rgit.Perm.{AccessLevel, owner, level_le}
use rgit.Auth.Authorize.{effective_access_level, effective_level}
use rgit.Locate.{locate}
use rgit.Locate.Named.{locate-Reads}
use rgit.Projects.{require_admin_level, reaches}
use rgit.Projects.Delete.Trash.{Fresh, directories-Fresh}
use rgit.Projects.Delete.Moves.{
  FailsOnce, Along, move_all-Along, move_all-Failed, delete_row-Failed,
}

remove_project-Failed :
    (stamp : Str) (p : Project) (w u : World) (e : Error)
    → FailsOnce w
    → ((path : Str) → exists (trash_of stamp path) w.repos ≡ false)
    → remove_project stamp p w ≡ (err e, u)
    → (u.db ≡ w.db) × SameDirs u.repos w.repos
unfolding remove_project
remove_project-Failed stamp p w u e once fresh h =
    let paths = directories p.disk_hash in
    let rest = move_all stamp paths [] >>= delete_row p.id in
    elim (bind-eq-err (outside (db unavailable)) (λ _. rest) w h) [
      | inl i ↦ (ground arith, λ x. ground arith)
      | inr (_, v, i, j) ↦
          let a : Along w.repos [] w v = record {
            db = ground arith;
            fails = ground arith;
            undone = λ x. ground arith;
          } in
          let start : Fresh stamp v.repos paths =
            directories-Fresh stamp p.disk_hash v.repos (λ path. ground (arith, fresh path)) in
          elim (bind-eq-err (move_all stamp paths []) (delete_row p.id) v j) [
            | inl k ↦ move_all-Failed stamp w.repos w once paths [] v u e a start k
            | inr (m, x, k, l) ↦
                delete_row-Failed stamp w.repos w once p.id m x u e
                  (move_all-Along stamp w.repos w once paths [] m v x a start k) l
          ]
    ]

require_admin_level-Reads : (user : User) (p : Project) → Reads (require_admin_level user p owner)
unfolding require_admin_level effective_access_level
require_admin_level-Reads user p = if-Reads user.is_admin (pure tt) _ (pure-Reads tt) (
    bind-Reads (query (λ d. effective_level d user.id p)) (reaches owner) (query-Reads _)
      (λ l. reaches-Reads l))
  where
    reaches-Reads : (l : Option AccessLevel) → Reads (reaches owner l)
    reaches-Reads none = fail-Reads forbidden
    reaches-Reads (some l) = check-Reads (level_le owner l) forbidden

-- Where a deletion fails, at most one call has failed and no directory has a trash name of this second, the
-- tables are as before and so are the directories.
pub delete-undone :
    (stamp : Str) (user : User) (id : Str) (w v : World) (e : Error)
    → delete stamp user id w ≡ (err e, v)
    → FailsOnce w
    → ((path : Str) → exists (trash_of stamp path) w.repos ≡ false)
    → (v.db ≡ w.db) × SameDirs v.repos w.repos
unfolding delete
delete-undone stamp user id w v e h once fresh =
    elim (bind-eq-err (locate id) (remove_if_owner stamp user) w h) [
      | inl i ↦ unchanged (subst (λ r. Kept w r.1) i ((locate-Reads id).at w))
      | inr (p, x, i, j) ↦
          let k : Kept w x = subst (λ r. Kept w r.1) i ((locate-Reads id).at w) in
          let admin = require_admin_level-Reads user p in
          elim (bind-eq-err (require_admin_level user p owner) (λ _. remove_project stamp p) x j) [
            | inl l ↦ unchanged (Kept-trans w x v k (subst (λ r. Kept x r.1) l (admin.at x)))
            | inr (_, y, l, m) ↦
                let kept : Kept w y = Kept-trans w x y k (subst (λ r. Kept x r.1) l (admin.at x)) in
                let once_y : FailsOnce y =
                  subst (λ (g : ℕ → Bool). (m n : ℕ) → g m ≡ true → m < n → g n ≡ false)
                    (sym kept.fails) once in
                let fresh_y : (path : Str) → exists (trash_of stamp path) y.repos ≡ false = λ path.
                  subst (λ dirs. exists (trash_of stamp path) dirs ≡ false) (sym kept.repos)
                    (fresh path) in
                let (d, r) = remove_project-Failed stamp p y v e once_y fresh_y m in
                (d ∙ kept.db, subst (SameDirs v.repos) kept.repos r)
          ]
    ]
  where
    unchanged : Kept w v → (v.db ≡ w.db) × SameDirs v.repos w.repos
    unchanged k = (k.db, λ x. ap (exists x) k.repos)
