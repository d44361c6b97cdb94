-- ===== src/Shell/Run/Harmless.antt =====
-- The actions of a run that leave the rights of all users alone.
use rgit.Common.{ℕ, ◌≡◌, refl, sym, ap, ◌∙◌, subst, Option, arith, ℤ, Memᴰ, Bool-cases, inl, inr}
use rgit.Error.{Error}
use rgit.Result.{Result, ok, err}
use rgit.Perm.{RepoAction}
use rgit.Models.{User, Project}
use rgit.Store.{Db, World, M, execute, settle}
use rgit.Store.Starts.{StartsNone, execute-StartsNone}
use rgit.Auth.Token.{now}
use rgit.Shell.{ShellError}
use rgit.Auth.Authorize.Levels.{Holds, as_member, as_group_member, as_owner}
use rgit.Auth.Authorize.Policy.{May, as_anyone, as_admin, as_user, as_holder}
use rgit.Autocreate.{outside}
use rgit.Shell.Run.{
  Answer, completed, failed, S, proceed, ◌>>=◌, mapped, call_or, as_internal, mark_key_used,
  touch_key, complete,
}

-- The tables that the rights of a user are in.
pub record SameRights (d e : Db) : Type 0 where
  pub namespaces : d.namespaces ≡ e.namespaces
  pub project_members : d.project_members ≡ e.project_members
  pub group_members : d.group_members ≡ e.group_members

pub Holds-same :
    (d e : Db) (u : ℕ) (p : Project) (l : ℤ) → SameRights d e → Holds d u p l → Holds e u p l
Holds-same d e u p l s (as_member m k a b c) =
    as_member m (subst (λ t. Memᴰ m t) s.project_members k) a b c
Holds-same d e u p l s (as_group_member m k a b c) =
    as_group_member m (subst (λ t. Memᴰ m t) s.group_members k) a b c
Holds-same d e u p l s (as_owner n k a b c) =
    as_owner n (subst (λ t. Memᴰ n t) s.namespaces k) a b c

pub May-same :
    (d e : Db) (caller : Option User) (p : Project) (a : RepoAction)
    → SameRights d e
    → May d caller p a
    → May e caller p a
May-same d e caller p a s (as_anyone h k m) = as_anyone h k m
May-same d e caller p a s (as_admin u h k m n) = as_admin u h k m n
May-same d e caller p a s (as_user u h k m n) = as_user u h k m n
May-same d e caller p a s (as_holder u l h k m n o) =
    as_holder u l h k (Holds-same d e u.id p l s m) n o

pub SameRights-trans : (c d e : Db) → SameRights c d → SameRights d e → SameRights c e
SameRights-trans c d e s t = record {
  namespaces = s.namespaces ∙ t.namespaces;
  project_members = s.project_members ∙ t.project_members;
  group_members = s.group_members ∙ t.group_members;
}

pub same : (d : Db) → SameRights d d
same d = record { namespaces = refl; project_members = refl; group_members = refl }

-- An action that leaves those tables alone and starts no service, whether it completes or fails.
pub record Harmless {ℓ} {A : Type ℓ} (m : S A) : Type ℓ where
  pub rights : (w : World) → SameRights w.db (m w).1.db
  pub started : (w : World) → (m w).1.started ≡ w.started

pub after-Harmless {ℓ} :
    {A : Type ℓ} (m : S A) (w : World) (r : Answer A × World)
    → Harmless m
    → m w ≡ r
    → SameRights w.db r.1.db
after-Harmless m w r h e = subst (λ q. SameRights w.db q.1.db) e (h.rights w)

module _ {ℓ κ} {A : Type ℓ} {B : Type κ} where
  proceed-rights :
      (r : Answer A × World) (f : A → S B)
      → ((a : A) → Harmless (f a))
      → SameRights r.1.db (proceed r f).1.db
  proceed-rights (completed a, w) f h = (h a).rights w
  proceed-rights (failed e, w) f h = same w.db

  proceed-started :
      (r : Answer A × World) (f : A → S B)
      → ((a : A) (w : World) → (f a w).1.started ≡ w.started)
      → (proceed r f).1.started ≡ r.1.started
  proceed-started (completed a, w) f h = h a w
  proceed-started (failed e, w) f h = refl

  pub bind-Harmless :
      (m : S A) (f : A → S B) → Harmless m → ((a : A) → Harmless (f a)) → Harmless (m >>= f)
  bind-Harmless m f h k = record {
    rights = λ w.
        SameRights-trans w.db (m w).1.db (proceed (m w) f).1.db (h.rights w)
          (proceed-rights (m w) f k);
    started = λ w. proceed-started (m w) f (λ a v. (k a).started v) ∙ h.started w;
  }

  -- Two actions that start nothing start nothing together.
  pub bind-started :
      (m : S A) (f : A → S B)
      → ((w : World) → (m w).1.started ≡ w.started)
      → ((a : A) (w : World) → (f a w).1.started ≡ w.started)
      → (w : World) → ((m >>= f) w).1.started ≡ w.started
  bind-started m f h k w = proceed-started (m w) f k ∙ h w

module _ {ℓ} {A : Type ℓ} where
  mapped-world : (f : Error → ShellError) (r : Result A × World) → (mapped f r).1 ≡ r.1
  mapped-world f (ok a, w) = refl
  mapped-world f (err e, w) = refl

  pub call_or-started :
      (f : Error → ShellError) (m : M A)
      → StartsNone m
      → (w : World) → (call_or f m w).1.started ≡ w.started
  call_or-started f m h w = ap (λ (v : World). v.started) (mapped-world f (m w)) ∙ h.at w

  pub call_or-Harmless :
      (f : Error → ShellError) (m : M A)
      → StartsNone m
      → ((w : World) → SameRights w.db (m w).1.db)
      → Harmless (call_or f m)
  call_or-Harmless f m h k = record {
    rights = λ w. subst (λ (v : World). SameRights w.db v.db) (sym (mapped-world f (m w))) (k w);
    started = call_or-started f m h;
  }

  settle-rights :
      (r : Result (A × Db)) (w : World)
      → ((a : A) (e : Db) → r ≡ ok (a, e) → SameRights w.db e)
      → SameRights w.db (settle r w).1.db
  settle-rights (ok (a, d)) w h = h a d refl
  settle-rights (err e) w h = same w.db

  pub execute-Harmless :
      (f : Db → Result (A × Db))
      → ((a : A) (d e : Db) → f d ≡ ok (a, e) → SameRights d e)
      → Harmless (call_or as_internal (execute f))
  unfolding execute
  execute-Harmless f k = call_or-Harmless as_internal (execute f) (execute-StartsNone f) (λ w.
      elim (Bool-cases (w.fails w.calls)) [
        | inl t ↦ rw t (same w.db)
        | inr n ↦ rw n (settle-rights (f w.db) w (λ a e h. k a w.db e h))
      ])

  pub complete-Harmless : (a : A) → Harmless (complete a)
  complete-Harmless a = record { rights = λ w. same w.db; started = λ w. refl }

pub outside-StartsNone : (e : Error) → StartsNone (outside e)
outside-StartsNone e = record { at = λ w. refl }

pub now-Harmless : Harmless (call_or as_internal now)
now-Harmless = record { rights = λ w. same w.db; started = λ w. refl }

pub outside-Harmless : (e : Error) → Harmless (call_or as_internal (outside e))
outside-Harmless e =
    call_or-Harmless as_internal (outside e) (outside-StartsNone e) (λ w. same w.db)

pub mark_key_used-Harmless : (key_id : ℕ) → Harmless (mark_key_used key_id)
mark_key_used-Harmless key_id = bind-Harmless (call_or as_internal now) _ now-Harmless (λ t.
    execute-Harmless (touch_key t key_id) (λ a d e j. record {
      namespaces = ground arith;
      project_members = ground arith;
      group_members = ground arith;
    }))
