-- ===== src/Projects/Delete/Restored.antt =====
-- Renames of directories, and the rollback of them.
use rgit.Common.{
  ℕ, suc, ◌≤◌, ◌≡◌, refl, sym, subst, Str, true, false, not, ◌&&◌, ◌||◌, List, [], ◌∷◌, retain,
  str_eq, str_eq_iff, arith,
}
use rgit.Store.{World}
use rgit.Projects.Delete.{exists, renamed, rename, Moved, restore_soft_deleted}

-- The same directories, in any order.
abbrev pub SameDirs : List Str → List Str → Type 0
SameDirs a b = (x : Str) → exists x a ≡ exists x b

pub exists-retain :
    (x from : Str) (dirs : List Str)
    → exists x (retain (λ d. not (str_eq d from)) dirs) ≡ (not (str_eq x from) && exists x dirs)
exists-retain x from [] = ground arith
exists-retain x from (d ∷ dirs) =
    ground (arith, exists-retain x from dirs, str_eq_iff x d, str_eq_iff d from, str_eq_iff x from)

pub exists-renamed :
    (x from to : Str) (dirs : List Str)
    → exists x (renamed from to dirs) ≡ (str_eq x to || (not (str_eq x from) && exists x dirs))
exists-renamed x from to dirs = ground (arith, exists-retain x from dirs)

pub renamed-SameDirs :
    (from to : Str) (a b : List Str)
    → SameDirs a b
    → SameDirs (renamed from to a) (renamed from to b)
renamed-SameDirs from to a b h x =
    ground (arith, h x, exists-renamed x from to a, exists-renamed x from to b)

-- There and back.
pub renamed_twice :
    (from to : Str) (dirs : List Str)
    → exists from dirs ≡ true
    → exists to dirs ≡ false
    → SameDirs (renamed to from (renamed from to dirs)) dirs
renamed_twice from to dirs h k x = ground (
  arith,
  exists-renamed x to from (renamed from to dirs),
  exists-renamed x from to dirs,
  str_eq_iff x from,
  str_eq_iff x to,
  str_eq_iff from to,
)

-- The directories after every rename of a rollback.
abbrev pub restored : Moved → List Str → List Str
restored [] dirs = dirs
restored ((original, trash) ∷ moved) dirs = restored moved (renamed trash original dirs)

pub restored-SameDirs :
    (moved : Moved) (a b : List Str) → SameDirs a b → SameDirs (restored moved a) (restored moved b)
restored-SameDirs [] a b h = h
restored-SameDirs ((o, t) ∷ moved) a b h =
    restored-SameDirs moved (renamed t o a) (renamed t o b) (renamed-SameDirs t o a b h)

-- From here on no call fails.
abbrev pub Works : World → Type 0
Works w = (n : ℕ) → w.calls ≤ n → w.fails n ≡ false

pub restore-restored :
    (moved : Moved) (w : World)
    → Works w
    → ((restore_soft_deleted moved w).db ≡ w.db)
      × ((restore_soft_deleted moved w).repos ≡ restored moved w.repos)
unfolding restore_soft_deleted
restore-restored [] w h = (refl, refl)
restore-restored ((o, t) ∷ moved) w h =
    let next = record w { calls = suc w.calls; repos = renamed t o w.repos } in
    let ih = restore-restored moved next (λ n k. h n (omega arith)) in
    let e : (rename t o w).1 ≡ next = ground (arith, h w.calls (omega arith)) in
    subst
      (λ x.
        ((restore_soft_deleted moved x).db ≡ w.db)
        × ((restore_soft_deleted moved x).repos ≡ restored moved (renamed t o w.repos)))
      (sym e) ih
