-- ===== src/Shell/Run/Steps.antt =====
-- What a run that completes says of its steps.
use rgit.Common.{ℕ, Str, ◌≡◌, refl, sym, ap, ◌∙◌, Option, none, some, arith}
use rgit.Store.Calls.{query-eq-ok}
use rgit.Error.{Error, db, unavailable}
use rgit.Result.{Result, ok, err}
use rgit.Models.{User}
use rgit.Store.{World, M, query}
use rgit.Autocreate.{outside}
use rgit.Shell.{ShellError, invalid_command, access_denied, ShellCommand, parse_command}
use rgit.Shell.Run.{
  Answer, completed, failed, S, proceed, ◌>>=◌, mapped, call_or, or_stop, as_internal, Ran, Host,
  key_user, opened, with_command, run_command, run,
}

module _ {ℓ κ} {A : Type ℓ} {B : Type κ} where
  proceed-eq-completed :
      (r : Answer A × World) (f : A → S B) {b : B} {w : World}
      → proceed r f ≡ (completed b, w)
      → (a : A) × (v : World) × (r ≡ (completed a, v)) × (f a v ≡ (completed b, w))
  proceed-eq-completed (completed a, v) f h = (a, v, refl, h)
  proceed-eq-completed (failed e, v) f h = cc

  pub bind-eq-completed :
      (m : S A) (f : A → S B) (w : World) {b : B} {v : World}
      → (m >>= f) w ≡ (completed b, v)
      → (a : A) × (x : World) × (m w ≡ (completed a, x)) × (f a x ≡ (completed b, v))
  bind-eq-completed m f w h = proceed-eq-completed (m w) f h

module _ {ℓ} {A : Type ℓ} where
  mapped-eq-completed :
      (f : Error → ShellError) (r : Result A × World) {a : A} {v : World}
      → mapped f r ≡ (completed a, v)
      → r ≡ (ok a, v)
  mapped-eq-completed f (ok b, w) h = ground arith
  mapped-eq-completed f (err e, w) h = cc

  pub call_or-eq-completed :
      (f : Error → ShellError) (m : M A) (w : World) {a : A} {v : World}
      → call_or f m w ≡ (completed a, v)
      → m w ≡ (ok a, v)
  call_or-eq-completed f m w h = mapped-eq-completed f (m w) h

  pub or_stop-eq-completed :
      (o : Option A) (e : ShellError) (w : World) {a : A} {v : World}
      → or_stop o e w ≡ (completed a, v)
      → (o ≡ some a) × (w ≡ v)
  or_stop-eq-completed none e w h = cc
  or_stop-eq-completed (some b) e w h = (ground arith, ground arith)

-- How a run gets to its command: the line is parsed, the key has an active user, and the tables are untouched.
pub record Started (w x : World) (key_id : ℕ) (original : Str) (c : ShellCommand) (u : User)
    : Type 0 where
  pub parsed : parse_command original ≡ some c
  pub found : key_user key_id w.db ≡ some u
  pub db : x.db ≡ w.db
  pub now : x.now ≡ w.now

module _ (host : Host) where
  pub run-eq-completed :
      (key_id : ℕ) (original : Str) (w v : World) (r : Ran)
      → run host key_id original w ≡ (completed r, v)
      → (c : ShellCommand) × (u : User) × (x : World) × Started w x key_id original c u
        × (run_command host key_id c u x ≡ (completed r, v))
  unfolding run
  run-eq-completed key_id original w v r h =
      let (_, x, a, b) =
        bind-eq-completed (call_or as_internal (outside (db unavailable)))
          (λ _. opened host key_id original) w h in
      let (c, y, e, f) =
        bind-eq-completed (or_stop (parse_command original) invalid_command)
          (with_command host key_id) x b in
      let (parsed, same_world) =
        or_stop-eq-completed (parse_command original) invalid_command x e in
      let (found, z, i, j) =
        bind-eq-completed (call_or as_internal (query (key_user key_id)))
          (λ found. or_stop found access_denied >>= run_command host key_id c) y f in
      let (u, t, k, l) =
        bind-eq-completed (or_stop found access_denied) (run_command host key_id c) z j in
      let (is_found, last) = or_stop-eq-completed found access_denied z k in
      let (read, kept) =
        query-eq-ok (key_user key_id) y z
          (call_or-eq-completed as_internal (query (key_user key_id)) y i) in
      let unchanged : y.db ≡ w.db = ground arith in
      let timed : y.now ≡ w.now = ground arith in
      (
        c,
        u,
        t,
        record {
          parsed = parsed;
          found = ap (key_user key_id) (sym unchanged) ∙ sym read ∙ is_found;
          db = ap (λ (q : World). q.db) (sym last) ∙ kept.db ∙ unchanged;
          now = ap (λ (q : World). q.now) (sym last) ∙ kept.now ∙ timed;
        },
        l,
      )
