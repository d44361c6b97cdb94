-- ===== src/Auth/Authorize/Policy.antt =====
-- The access policy stated on its own, and `authorize_repo` against it.
use rgit.Common.{
  Bool, true, false, ◌≡◌, refl, ◌&&◌, ◌≢◌, ◌⊎◌, inl, inr, Option, none, some, ℤ, pos, leb_ℤ, arith,
  Option-cases, Bool-cases, if◌then◌else◌, str_eq_iff, str_eq_refl, negsuc,
}
use rgit.Error.{Error, forbidden, unauthorized, db, unavailable}
use rgit.Result.{ok, err}
use rgit.Perm.{
  AccessLevel, RepoAction, internal, visibility_le, read, level_value, required_level, level_le,
  visibility_from_i32,
}
use rgit.Models.{User, Project, active}
use rgit.Store.{Db, World, query}
use rgit.Store.Calls.{Healthy}
use rgit.Auth.Authorize.{
  effective_level, effective_access_level, authorize_repo, is_read, is_write, visibility_of,
}
use rgit.Auth.Authorize.Levels.{Holds, HasLevels, effective_level-highest, effective_level-some}

-- An archived project takes no writes.
abbrev pub IsOpen : Project → RepoAction → Type 0
IsOpen p a = is_write a && p.archived ≡ false

-- The reasons for which a caller may act on a project.
pub data May (d : Db) (caller : Option User) (p : Project) (a : RepoAction) : Type 0 where
  as_anyone : caller ≡ none → a ≡ read → p.visibility ≡ pos 20 → May d caller p a
  as_admin :
      (u : User)
      → caller ≡ some u
      → u.state ≡ active
      → u.is_admin ≡ true
      → IsOpen p a
      → May d caller p a
  as_user :
      (u : User)
      → caller ≡ some u
      → u.state ≡ active
      → a ≡ read
      → (p.visibility ≡ pos 10) ⊎ (p.visibility ≡ pos 20)
      → May d caller p a
  as_holder :
      (u : User) (l : ℤ)
      → caller ≡ some u
      → u.state ≡ active
      → Holds d u.id p l
      → leb_ℤ (pos (level_value (required_level a))) l ≡ true
      → IsOpen p a
      → May d caller p a

abbrev sees : Project → RepoAction → Bool
sees p a = is_read a && visibility_le internal (visibility_of p)

module _ (p : Project) (a : RepoAction) where
  effective-May :
      (d : Db) (u : User) (v : AccessLevel)
      → effective_level d u.id p ≡ some v
      → u.state ≡ active
      → IsOpen p a
      → level_le (required_level a) v ≡ true
      → May d (some u) p a
  effective-May d u v e s o t =
      as_holder u (pos (level_value v)) refl s (effective_level-highest d u.id p v e).0 t o

  sound_user :
      (u : User) (w v : World)
      → IsOpen p a
      → authorize_repo (some u) p a w ≡ (ok tt, v)
      → May w.db (some u) p a
  unfolding authorize_repo effective_access_level query visibility_from_i32
  sound_user u w v o h =
      let s : u.state ≡ active = (str_eq_iff u.state active).0 (ground arith) in
      elim (Bool-cases u.is_admin) [
        | inl t ↦ as_admin u refl s t o
        | inr f ↦ elim (Bool-cases (sees p a)) [
          | inl t ↦ as_user u refl s (ground arith) (ground arith)
          | inr g ↦ elim (Option-cases (effective_level w.db u.id p)) [
            | inl e ↦ absurd (ground arith)
            | inr (k, e) ↦ effective-May w.db u k e s o (ground arith)
          ]
        ]
      ]

  -- Whatever database calls fail: a caller that is let through has a reason of the policy.
  pub authorize_repo_sound :
      (caller : Option User) (w v : World)
      → authorize_repo caller p a w ≡ (ok tt, v)
      → May w.db caller p a
  unfolding authorize_repo visibility_from_i32
  authorize_repo_sound none w v h = as_anyone refl (ground arith) (ground arith)
  authorize_repo_sound (some u) w v h = sound_user u w v (ground arith) h

rank-le :
    (a : RepoAction) (l : ℤ) (v : AccessLevel)
    → leb_ℤ (pos (level_value (required_level a))) l ≡ true
    → leb_ℤ l (pos (level_value v)) ≡ true
    → level_le (required_level a) v ≡ true
rank-le a (pos n) v h k = ground arith
rank-le a (negsuc n) v h k = ground arith

module _ (p : Project) (a : RepoAction) (w : World) (healthy : Healthy w) where
  member-ok :
      (u : User) (k : AccessLevel)
      → effective_level w.db u.id p ≡ some k
      → u.state ≡ active
      → IsOpen p a
      → level_le (required_level a) k ≡ true
      → (authorize_repo (some u) p a w).0 ≡ ok tt
  unfolding authorize_repo effective_access_level query
  member-ok u k e s o t = ground (arith, healthy w.calls, str_eq_refl active)

  -- With valid levels and a database that answers, every reason of the policy suffices.
  pub authorize_repo_complete :
      (caller : Option User)
      → HasLevels w.db
      → May w.db caller p a
      → (authorize_repo caller p a w).0 ≡ ok tt
  unfolding authorize_repo visibility_from_i32
  authorize_repo_complete caller hl (as_anyone e r s) = ground arith
  authorize_repo_complete caller hl (as_admin u e s t o) = ground (arith, str_eq_refl active)
  authorize_repo_complete caller hl (as_user u e s r t) = ground (arith, str_eq_refl active)
  authorize_repo_complete caller hl (as_holder u l e s k t o) =
      let (v, ev) = effective_level-some w.db u.id p l hl k in
      let bound = (effective_level-highest w.db u.id p v ev).1 l k in
      rw e (member-ok u v ev s o (rank-le a l v t bound))

-- The answer to a caller that is not let through. An anonymous caller gets 401, or 403 for a write
-- to an archived project. A user gets 403, unless the database failed.
pub authorize_repo-refusal :
    (caller : Option User) (p : Project) (a : RepoAction) (w v : World) (e : Error)
    → authorize_repo caller p a w ≡ (err e, v)
    → (caller ≡ none → e ≡ (if is_write a && p.archived then forbidden else unauthorized))
      × (caller ≢ none → (e ≡ forbidden) ⊎ (e ≡ db unavailable))
unfolding authorize_repo effective_access_level query
authorize_repo-refusal none p a w v e h = (λ _. ground arith, λ n. absurd (n refl))
authorize_repo-refusal (some u) p a w v e h = (λ n. cc, λ _. ground arith)
