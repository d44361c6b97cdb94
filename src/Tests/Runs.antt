-- ===== src/Tests/Runs.antt =====
-- Runs of Git, what it prints, and the wait for running operations.
use rgit.Common.{
  ℕ, ◌++◌, not, is_empty, retain, all, ◌≤◌, ◌≡◌, refl, sym, ap, ◌∙◌, subst, Str, text, Bool, true,
  false, Option, none, some, List, [], ◌∷◌, Memᴰ, All, any, drop, map, length, trim, str_eq,
  str_eq_iff, Mem-of_any, Bool-cases, inl, inr, arith, if◌then◌else◌,
}
use rgit.Error.{Error, git}
use rgit.Result.{Result, ok, err}
use rgit.GitRead.{Command, plain}
use rgit.GitRead.Output.{parse_commits, lines}
use rgit.GitRead.Commits.{Fields, IsClean, print_log, info, parse_commits-print_log}
use rgit.Repo.Run.{bytes, success, Child, run_git_limited, read_stdout, drain_stderr}
use rgit.Repo.Run.Bounds.{stream, run_git_limited-output}
use rgit.Repo.Head.{Git, Laws}
use rgit.State.Tracker.{
  Notify, sleeping, Tracker, default_tracker, begin, wait_idle, Reach, start, by_step, by_arrival,
  begins, waits, checks, Settles,
}
use rgit.State.Tracker.Awake.{IsAwake, Reach-IsAwake}
use rgit.State.Tracker.Returns.{IsReturned, wait_idle_returns}

abbrev asked : Command
asked = plain (text "ls-tree" ∷ text "-z" ∷ text "--long" ∷ []) (text "main:src")

abbrev first_commit : Fields
first_commit = record {
  hash = text "c0ffee";
  author_name = text "Ann";
  author_email = text "a@x";
  author_date = text "2026-01-01T00:00:00Z";
  parents = text "beef dead";
  body = text "start\n";
}

first-IsClean : IsClean first_commit
first-IsClean = (refl, refl, refl, refl, refl, refl)

parse_commits-print_log_example :
    parse_commits (print_log (first_commit ∷ first_commit ∷ []))
    ≡ map info (first_commit ∷ first_commit ∷ [])
parse_commits-print_log_example =
    parse_commits-print_log (first_commit ∷ first_commit ∷ []) (first-IsClean, (first-IsClean, tt))

abbrev child : Child
child = record {
  spawn_error = none;
  stdout = bytes (1 ∷ 2 ∷ []) ∷ bytes (3 ∷ []) ∷ bytes [] ∷ [];
  stderr = [];
  exit = success;
}

abbrev printed : List ℕ
printed = 1 ∷ 2 ∷ 3 ∷ []

run_git_limited-output_example :
    (child.spawn_error ≡ none)
    × (child.exit ≡ success)
    × (printed ≡ stream child.stdout)
    × (length printed ≤ 5)
unfolding run_git_limited read_stdout drain_stderr
run_git_limited-output_example =
    run_git_limited-output (λ s. s) (λ n. n ∷ []) (text "log" ∷ []) 5 child printed refl

-- A stand-in for Git: HEAD, and the branches.
abbrev Refs : Type 0
Refs = Option Str × List Str

abbrev read_head : Option Str → Refs → Result (List ℕ) × Refs
read_head none r = (err (git (text "detached")), r)
read_head (some h) r = (ok h, r)

abbrev write_head : Str → Refs → Result (List ℕ) × Refs
write_head b r =
    if str_eq (trim b) b then (ok [], (some b, r.1)) else (err (git (text "bad name")), r)

abbrev show : Str → Refs → Result (List ℕ) × Refs
show b r = if any (str_eq b) r.1 then (ok [], r) else (err (git (text "no such ref")), r)

abbrev print_names : List Str → List ℕ
print_names [] = []
print_names (b ∷ bs) = b ++ (b'\n' ∷ print_names bs)

abbrev read_names : List ℕ → List Str
read_names out = retain (λ b. not (is_empty b)) (map trim (lines out))

abbrev is_branch : Refs → Str → Bool
is_branch r b = any (str_eq b) r.1

-- The branches, where their names have one line each.
abbrev listing : Refs → Result (List ℕ) × Refs
listing r =
    if all (is_branch r) (read_names (print_names r.1))
    then (ok (print_names r.1), r)
    else (err (git (text "bad name")), r)

abbrev run : List Str → Refs → Result (List ℕ) × Refs
run (c ∷ a ∷ b ∷ []) r =
    if str_eq a (text "--short") then read_head r.0 r else write_head (drop 11 b) r
run (c ∷ a ∷ b ∷ d ∷ []) r = if str_eq c (text "show-ref") then show (drop 11 d) r else listing r
run _ r = (err (git (text "usage")), r)

abbrev small_git : Git
small_git = record { Repository = Refs; run = run; decode = λ s. s }

abbrev trimmed : Option Str → Option Str
trimmed none = none
trimmed (some h) = some (trim h)

head_read_lem :
    (h : Option Str) (r r' : Refs) (out : List ℕ)
    → r.0 ≡ h
    → read_head h r ≡ (ok out, r')
    → (r' ≡ r) × (b : Str) × (trimmed r.0 ≡ some b) × (trim out ≡ b)
head_read_lem none r r' out e k = absurd (ground arith)
head_read_lem (some h) r r' out e k =
    let s : h ≡ out = ground arith in (ground arith, trim h, ap trimmed e, ap trim (sym s))

head_unread_lem : (h : Option Str) (r r' : Refs) (e : Error) → read_head h r ≡ (err e, r') → r' ≡ r
head_unread_lem none r r' e k = ground arith
head_unread_lem (some h) r r' e k = absurd (ground arith)

show_lem : (b : Str) (r r' : Refs) (out : List ℕ) → show b r ≡ (ok out, r') → (r' ≡ r) × Memᴰ b r.1
show_lem b r r' out k = elim (Bool-cases (any (str_eq b) r.1)) [
  | inl t ↦
      let (a, m, e) = Mem-of_any (str_eq b) r.1 t in
      (ground arith, subst (λ x. Memᴰ x r.1) (sym ((str_eq_iff b a).0 e)) m)
  | inr f ↦ absurd (ground arith)
]

write_head_lem :
    (b : Str) (r r' : Refs) (out : List ℕ)
    → write_head b r ≡ (ok out, r')
    → (trimmed r'.0 ≡ some b) × (r'.1 ≡ r.1)
write_head_lem b r r' out k = elim (Bool-cases (str_eq (trim b) b)) [
  | inl t ↦
      let s : (some b, r.1) ≡ r' = ground arith in
      (
        ap (λ (x : Refs). trimmed x.0) (sym s) ∙ ap some ((str_eq_iff (trim b) b).0 t),
        ap (λ (x : Refs). x.1) (sym s),
      )
  | inr f ↦ absurd (ground arith)
]

all-Mem : (p : Str → Bool) (bs : List Str) (b : Str) → all p bs ≡ true → Memᴰ b bs → p b ≡ true
all-Mem p [] b h m = elim m [ ]
all-Mem p (c ∷ bs) b h (Memᴰ.head e) = rw e (ground arith)
all-Mem p (c ∷ bs) b h (Memᴰ.tail m) = all-Mem p bs b (ground arith) m

list_lem :
    (r r' : Refs) (out : List ℕ)
    → listing r ≡ (ok out, r')
    → (r' ≡ r) × ((name : Str) → Memᴰ name (read_names out) → (b : Str) × Memᴰ b r.1 × (name ≡ b))
list_lem r r' out k = elim (Bool-cases (all (is_branch r) (read_names (print_names r.1)))) [
  | inl t ↦
      let printed : out ≡ print_names r.1 = ground arith in
      (
        ground arith,
        λ name m.
            let n = subst (λ o. Memᴰ name (read_names o)) printed m in
            let (b, k, e) =
              Mem-of_any (str_eq name) r.1
                (all-Mem (is_branch r) (read_names (print_names r.1)) name t n) in
            (b, k, (str_eq_iff name b).0 e),
      )
  | inr f ↦ absurd (ground arith)
]

small_laws : Laws small_git
unfolding str_eq
small_laws = record {
  heads = λ r. r.1;
  points_to = λ r. trimmed r.0;
  is_ambiguous = λ r b. false;
  head_read = λ r r' out k. head_read_lem r.0 r r' out refl k;
  head_unread = λ r r' e k. head_unread_lem r.0 r r' e k;
  branch_shown = λ b r r' out k. show_lem b r r' out k;
  branch_not_shown = λ b r r' e k. ground arith;
  listed = λ r r' out k. list_lem r r' out k;
  head_set = λ b r r' out k. write_head_lem b r r' out k;
}

-- HEAD named a branch that the push deleted, and there is no `master` or `main`.
abbrev pushed : Refs
pushed = (some (text "feature"), text "other" ∷ text "topic" ∷ [])

abbrev refreshed : Refs
refreshed = (some (text "other"), text "other" ∷ text "topic" ∷ [])

abbrev flag : Notify
flag = record {
  Future = Bool;
  notified = false;
  woken = λ f. true;
  ready = λ f. f;
  woken_is_ready = λ f. refl;
}

-- An operation runs, and a shutdown waits for it.
abbrev waiting : Tracker Bool
waiting = record { active = 1; guards = 1; notifying = 0; waiters = sleeping false ∷ [] }

begun : Reach flag (begin flag (default_tracker flag))
begun = by_arrival start (begins refl)

asleep_soon : Reach flag (wait_idle flag (begin flag (default_tracker flag)))
asleep_soon = by_arrival begun (waits refl)

waiting-Reach : Reach flag waiting
waiting-Reach = by_step asleep_soon (checks [] [] false refl refl)

Reach-IsAwake_example : IsAwake flag waiting
Reach-IsAwake_example = Reach-IsAwake flag waiting-Reach

wait_idle_returns_example :
    (u : Tracker Bool) × Settles flag waiting u × All (IsReturned flag) u.waiters
wait_idle_returns_example = wait_idle_returns flag waiting waiting-Reach
