-- ===== src/Projects/Delete/Moves.antt =====
-- The moves of a deletion, and the rollback where one of them fails.
use rgit.Common.{
  ℕ, suc, ◌<◌, ◌≡◌, refl, sym, ap, ◌∙◌, subst, Str, true, false, List, [], ◌∷◌, arith, Bool-cases,
  inl, inr,
}
use rgit.Error.{Error}
use rgit.Result.{ok, err}
use rgit.Store.{World, execute}
use rgit.Store.Calls.{bind-eq-err, bind-eq-ok}
use rgit.Tables.Projects.{delete_project}
use rgit.Projects.Delete.{
  exists, renamed, trash_of, Moved, restore_soft_deleted, move_one, move_all, delete_row,
}
use rgit.Projects.Delete.Restored.{
  SameDirs, renamed_twice, restored, restored-SameDirs, Works, restore-restored,
}
use rgit.Projects.Delete.Trash.{Fresh, Fresh-renamed}

-- At most one call fails.
abbrev pub FailsOnce : World → Type 0
FailsOnce w = (m n : ℕ) → w.fails m ≡ true → m < n → w.fails n ≡ false

-- Between the start of a deletion and now: the tables are the same, and a rollback would give the
-- directories `dirs` back.
pub record Along (dirs : List Str) (moved : Moved) (w v : World) : Type 0 where
  pub db : v.db ≡ w.db
  pub fails : v.fails ≡ w.fails
  pub undone : SameDirs (restored moved v.repos) dirs

-- A rollback after the one call that fails.
module _ (dirs : List Str) (moved : Moved) (w v : World) (once : FailsOnce w)
    (along : Along dirs moved w v) where
  pub rolled_back :
      (x : World)
      → v.fails v.calls ≡ true
      → x.fails ≡ v.fails
      → x.calls ≡ suc v.calls
      → x.db ≡ w.db
      → x.repos ≡ v.repos
      → ((restore_soft_deleted moved x).db ≡ w.db)
        × SameDirs (restore_soft_deleted moved x).repos dirs
  rolled_back x f e c d r =
      let same : x.fails ≡ w.fails = e ∙ along.fails in
      let works : Works x = λ n k.
        subst (λ g. g n ≡ false) (sym same)
          (once v.calls n (subst (λ g. g v.calls ≡ true) along.fails f) (omega (arith, c, k))) in
      let (kept, back) = restore-restored moved x works in
      (kept ∙ d, subst (λ l. SameDirs l dirs) (sym (back ∙ ap (restored moved) r)) along.undone)

module _ (stamp : Str) (dirs : List Str) (w : World) (once : FailsOnce w) where
  abbrev pub Failed : World → Type 0
  Failed u = (u.db ≡ w.db) × SameDirs u.repos dirs

  pub move_one-Along :
      (path : Str) (paths : List Str) (moved moved' : Moved) (v u : World)
      → Along dirs moved w v
      → Fresh stamp v.repos (path ∷ paths)
      → move_one stamp path moved v ≡ (ok moved', u)
      → Along dirs moved' w u × Fresh stamp u.repos paths
  move_one-Along path paths moved moved' v u a f h = elim (Bool-cases (exists path v.repos)) [
    | inr gone ↦
        let same : v ≡ u = ground arith in
        let same' : moved ≡ moved' = ground arith in
        (
          subst (λ m. Along dirs m w u) same' (subst (λ x. Along dirs moved w x) same a),
          subst (λ x. Fresh stamp x.repos paths) same f.2,
        )
    | inl found ↦ elim (Bool-cases (v.fails v.calls)) [
      | inl t ↦ absurd (ground arith)
      | inr g ↦
          let trash = trash_of stamp path in
          let next = record v { calls = suc v.calls; repos = renamed path trash v.repos } in
          let same : next ≡ u = ground arith in
          let same' : (path, trash) ∷ moved ≡ moved' = ground arith in
          let back = renamed_twice path trash v.repos found f.0 in
          let here : Along dirs ((path, trash) ∷ moved) w next = record {
            db = a.db;
            fails = a.fails;
            undone = λ x. restored-SameDirs moved _ v.repos back x ∙ a.undone x;
          } in
          (
            subst (λ m. Along dirs m w u) same'
                (subst (λ x. Along dirs ((path, trash) ∷ moved) w x) same here),
            subst (λ (x : World). Fresh stamp x.repos paths) same
                (Fresh-renamed stamp path trash v.repos paths f.1 f.2),
          )
    ]
  ]

  pub move_one-Failed :
      (path : Str) (moved : Moved) (v u : World) (e : Error)
      → Along dirs moved w v
      → move_one stamp path moved v ≡ (err e, u)
      → Failed u
  move_one-Failed path moved v u e a h = elim (Bool-cases (exists path v.repos)) [
    | inr gone ↦ absurd (ground arith)
    | inl found ↦ elim (Bool-cases (v.fails v.calls)) [
      | inr g ↦ absurd (ground arith)
      | inl t ↦
          let x = record v { calls = suc v.calls } in
          let same : restore_soft_deleted moved x ≡ u = ground arith in
          subst Failed same (rolled_back dirs moved w v once a x t refl refl a.db refl)
    ]
  ]

  pub move_all-Along :
      (paths : List Str) (moved moved' : Moved) (v u : World)
      → Along dirs moved w v
      → Fresh stamp v.repos paths
      → move_all stamp paths moved v ≡ (ok moved', u)
      → Along dirs moved' w u
  unfolding move_all
  move_all-Along [] moved moved' v u a f h =
      let same : v ≡ u = ground arith in
      let same' : moved ≡ moved' = ground arith in
      subst (λ m. Along dirs m w u) same' (subst (λ x. Along dirs moved w x) same a)
  move_all-Along (path ∷ paths) moved moved' v u a f h =
      let (m, x, i, j) = bind-eq-ok (move_one stamp path moved) (move_all stamp paths) v h in
      let (b, g) = move_one-Along path paths moved m v x a f i in
      move_all-Along paths m moved' x u b g j

  pub move_all-Failed :
      (paths : List Str) (moved : Moved) (v u : World) (e : Error)
      → Along dirs moved w v
      → Fresh stamp v.repos paths
      → move_all stamp paths moved v ≡ (err e, u)
      → Failed u
  unfolding move_all
  move_all-Failed [] moved v u e a f h = absurd (ground arith)
  move_all-Failed (path ∷ paths) moved v u e a f h =
      elim (bind-eq-err (move_one stamp path moved) (move_all stamp paths) v h) [
        | inl i ↦ move_one-Failed path moved v u e a i
        | inr (m, x, i, j) ↦
            let (b, g) = move_one-Along path paths moved m v x a f i in
            move_all-Failed paths m x u e b g j
      ]

  pub delete_row-Failed :
      (id : ℕ) (moved : Moved) (v u : World) (e : Error)
      → Along dirs moved w v
      → delete_row id moved v ≡ (err e, u)
      → Failed u
  unfolding execute delete_project
  delete_row-Failed id moved v u e a h = elim (Bool-cases (v.fails v.calls)) [
    | inl t ↦
        let x = record v { calls = suc v.calls } in
        let same : restore_soft_deleted moved x ≡ u = ground arith in
        subst Failed same (rolled_back dirs moved w v once a x t refl refl a.db refl)
    | inr f ↦ elim (Bool-cases (v.fails (suc v.calls))) [
      | inr g ↦ absurd (ground arith)
      | inl t ↦
          let y = record v { calls = suc v.calls } in
          let x = record v { calls = suc (suc v.calls) } in
          let same : restore_soft_deleted moved x ≡ u = ground arith in
          let b : Along dirs moved w y = record { db = a.db; fails = a.fails; undone = a.undone } in
          subst Failed same (rolled_back dirs moved w y once b x t refl refl a.db refl)
    ]
  ]
