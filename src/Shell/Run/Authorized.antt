-- ===== src/Shell/Run/Authorized.antt =====
-- Who gets a service or an LFS grant through the forced command of an SSH key.
use rgit.Common.{
  ℕ, Str, text, ◌≡◌, refl, sym, ap, ◌∙◌, Option, none, some, arith, ◌&&◌, ◌==◌, Memᴰ, find-Mem,
  Mem-of_any, str_eq_iff, inl, inr,
}
use rgit.Error.{db, unavailable}
use rgit.Models.{User, Project, SshKey}
use rgit.Store.{Db, World, query}
use rgit.Store.Starts.{query-StartsNone}
use rgit.Store.Calls.{query-eq-ok}
use rgit.Auth.Authorize.Policy.{May}
use rgit.Autocreate.{outside}
use rgit.Protocol.{Service}
use rgit.Shell.{
  ShellAction, git, ShellError, ShellCommand, invalid_command, access_denied, repo_action,
  parse_command,
}
use rgit.Shell.Run.{
  completed, ◌>>=◌, call_or, or_stop, as_internal, Ran, Host, key_user, owns_key, with_command,
  opened, run_command, run,
}
use rgit.Shell.Run.Steps.{call_or-eq-completed, or_stop-eq-completed, run-eq-completed}
use rgit.Shell.Run.Harmless.{outside-Harmless, call_or-started}
use rgit.Shell.Run.Rights.{ran_action, ran_project, command-May}
use rgit.Shell.Run.Served.{StartsFor, ForCommand, bind-StartsFor, command-StartsFor}

-- An active user with a key of that id.
abbrev pub HoldsKey : Db → ℕ → User → Type 0
HoldsKey d key_id u =
    Memᴰ u d.users
    × (u.state ≡ text "active")
    × (k : SshKey) × Memᴰ k d.ssh_keys
    × (k.id ≡ key_id)
    × (k.user_id ≡ u.id)

key_user-HoldsKey :
    (d : Db) (key_id : ℕ) (u : User) → key_user key_id d ≡ some u → HoldsKey d key_id u
key_user-HoldsKey d key_id u h =
    let (m, t) = find-Mem (owns_key d key_id) d.users u h in
    let (k, n, e) =
      Mem-of_any (λ k. k.id == key_id && k.user_id == u.id) d.ssh_keys (ground arith) in
    (m, (str_eq_iff u.state (text "active")).0 (ground arith), k, n, ground arith, ground arith)

-- The command line asks for the action, the key is that of an active user, and the policy allows that user the
-- action on the project.
pub record Permitted (w v : World) (key_id : ℕ) (original : Str) (action : ShellAction)
    (p : Project) : Type 0 where
  pub command : ShellCommand
  pub user : User
  pub parsed : parse_command original ≡ some command
  pub asked : action ≡ command.action
  pub key : HoldsKey w.db key_id user
  pub may : May v.db (some user) p (repo_action command.action)

or_stop-started :
    {A : Type 0} (o : Option A) (e : ShellError) (w : World) → (or_stop o e w).1.started ≡ w.started
or_stop-started none e w = refl
or_stop-started (some a) e w = refl

as_StartsFor :
    (P Q : Service → Project → World → Type 0) (w v : World)
    → ((s : Service) (p : Project) → P s p v → Q s p v)
    → StartsFor P w v
    → StartsFor Q w v
as_StartsFor P Q w v k (inl h) = inl h
as_StartsFor P Q w v k (inr (s, p, h, t)) = inr (s, p, h, k s p t)

module _ (host : Host) where
  run-StartsFor :
      (key_id : ℕ) (original : Str) (w : World)
      → StartsFor
          (λ s p v. Permitted w v key_id original (git s) p)
          w
          (run host key_id original w).1
  unfolding run
  run-StartsFor key_id original w =
      let P = λ (s : Service) (p : Project) (v : World). Permitted w v key_id original (git s) p in
      bind-StartsFor P (call_or as_internal (outside (db unavailable)))
        (λ _. opened host key_id original) w (outside-Harmless (db unavailable)).started
        (λ _ x a.
          let first : x.db ≡ w.db = ground arith in
          bind-StartsFor P (or_stop (parse_command original) invalid_command)
            (with_command host key_id) x (or_stop-started (parse_command original) invalid_command)
            (λ c y b.
              let (parsed, same) =
                or_stop-eq-completed (parse_command original) invalid_command x b in
              bind-StartsFor P (call_or as_internal (query (key_user key_id)))
                (λ found. or_stop found access_denied >>= run_command host key_id c) y
                (call_or-started as_internal (query (key_user key_id))
                  (query-StartsNone (key_user key_id)))
                (λ found z d.
                  let (read, _) =
                    query-eq-ok (key_user key_id) y z
                      (call_or-eq-completed as_internal (query (key_user key_id)) y d) in
                  bind-StartsFor P (or_stop found access_denied) (run_command host key_id c) z
                    (or_stop-started found access_denied)
                    (λ u t f.
                      let (is_found, _) = or_stop-eq-completed found access_denied z f in
                      let before : y.db ≡ w.db = ap (λ (q : World). q.db) (sym same) ∙ first in
                      let holder : key_user key_id w.db ≡ some u =
                        ap (key_user key_id) (sym before) ∙ sym read ∙ is_found in
                      as_StartsFor (ForCommand host u c) P t (run_command host key_id c u t).1
                        (λ s p k. record {
                          command = c;
                          user = u;
                          parsed = parsed;
                          asked = k.0;
                          key = key_user-HoldsKey w.db key_id u holder;
                          may = k.1;
                        })
                        (command-StartsFor host key_id c u t)))))

  completed-Permitted :
      (key_id : ℕ) (original : Str) (w v : World) (r : Ran)
      → run host key_id original w ≡ (completed r, v)
      → Permitted w v key_id original (ran_action r) (ran_project r)
  completed-Permitted key_id original w v r h =
      let (c, u, x, st, k) = run-eq-completed host key_id original w v r h in
      let (asked, may) = command-May host key_id c u x v r k in
      record {
        command = c;
        user = u;
        parsed = st.parsed;
        asked = asked;
        key = key_user-HoldsKey w.db key_id u st.found;
        may = may;
      }

  pub run-Authorized :
      (key_id : ℕ) (original : Str) (w : World)
      → StartsFor
          (λ s p v. Permitted w v key_id original (git s) p)
          w
          (run host key_id original w).1
        × ((r : Ran)
            → (run host key_id original w).0 ≡ completed r
            → Permitted w
                (run host key_id original w).1
                key_id
                original
                (ran_action r)
                (ran_project r))
  run-Authorized key_id original w = (
    run-StartsFor key_id original w,
    λ r e.
        completed-Permitted key_id original w (run host key_id original w).1 r
          (ap (λ a. (a, (run host key_id original w).1)) e),
  )
