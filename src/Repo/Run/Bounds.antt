-- ===== src/Repo/Run/Bounds.antt =====
-- What a run returns, and how much of it is kept.
use rgit.Common.{
  ℕ, ◌+◌, ◌-◌, ◌≤◌, ◌≡◌, refl, sym, ap, ◌∙◌, Str, ◌++◌, none, List, [], ◌∷◌, ltb, length, take,
  length-append, append-nil, append_assoc, arith, Bool-cases, Option-cases, inl, inr, length-take,
}
use rgit.Result.{ok}
use rgit.Repo.Run.{
  Read, bytes, failed, deadline, Exit, success, failure, wait_failed, wait_deadline, Child,
  Captured, output, too_large, out_of_time, read_failed, read_stdout, drain_stderr, log_limit,
  waited, captured, run_git_limited,
}

-- All that is read up to the end of the stream.
abbrev pub stream : List Read → List ℕ
stream [] = []
stream (bytes [] ∷ reads) = []
stream (bytes (b ∷ bs) ∷ reads) = (b ∷ bs) ++ stream reads
stream (failed e ∷ reads) = []
stream (deadline ∷ reads) = []

read_stdout-output :
    (max : ℕ) (out : List ℕ) (reads : List Read) (all : List ℕ)
    → length out ≤ max
    → read_stdout max out reads ≡ output all
    → (all ≡ out ++ stream reads) × (length all ≤ max)
unfolding read_stdout
read_stdout-output max out [] all h e =
    let s : out ≡ all = ground arith in (sym s ∙ sym (append-nil out), ground arith)
read_stdout-output max out (bytes [] ∷ reads) all h e =
    let s : out ≡ all = ground arith in (sym s ∙ sym (append-nil out), ground arith)
read_stdout-output max out (bytes (b ∷ bs) ∷ reads) all h e =
    elim (Bool-cases (ltb max (length out + length (b ∷ bs)))) [
      | inl t ↦ absurd (ground arith)
      | inr f ↦
          let fits : length (out ++ (b ∷ bs)) ≤ max = ground (arith, length-append out (b ∷ bs)) in
          let (s, k) = read_stdout-output max (out ++ (b ∷ bs)) reads all fits (ground arith) in
          (s ∙ append_assoc out (b ∷ bs) (stream reads), k)
    ]
read_stdout-output max out (failed x ∷ reads) all h e = absurd (ground arith)
read_stdout-output max out (deadline ∷ reads) all h e = absurd (ground arith)

-- The diagnostics that are kept of a run.
pub length-drain_stderr :
    (logged : List ℕ) (reads : List Read)
    → length logged ≤ log_limit
    → length (drain_stderr logged reads) ≤ log_limit
unfolding drain_stderr
length-drain_stderr logged [] h = h
length-drain_stderr logged (bytes [] ∷ reads) h = h
length-drain_stderr logged (bytes (b ∷ bs) ∷ reads) h =
    let kept = take (log_limit - length logged) (b ∷ bs) in
    length-drain_stderr (logged ++ kept) reads
      (omega (arith, length-append logged kept, length-take (log_limit - length logged) (b ∷ bs)))
length-drain_stderr logged (failed x ∷ reads) h = h
length-drain_stderr logged (deadline ∷ reads) h = h

module _ (decode : List ℕ → Str) (decimal : ℕ → Str) (args : List Str) (max : ℕ) where
  waited-ok :
      (x : Exit) (found logged out : List ℕ)
      → waited decode decimal args max x found logged ≡ ok out
      → (found ≡ out) × (x ≡ success)
  waited-ok success found logged out h = (ground arith, refl)
  waited-ok (failure status) found logged out h = absurd (ground arith)
  waited-ok (wait_failed e) found logged out h = absurd (ground arith)
  waited-ok wait_deadline found logged out h = absurd (ground arith)

  captured-ok :
      (child : Child) (c : Captured) (out : List ℕ)
      → captured decode decimal args max child c ≡ ok out
      → (c ≡ output out) × (child.exit ≡ success)
  captured-ok child (output found) out h =
      let (same, x) = waited-ok child.exit found (drain_stderr [] child.stderr) out h in
      (ap output same, x)
  captured-ok child too_large out h = absurd (ground arith)
  captured-ok child out_of_time out h = absurd (ground arith)
  captured-ok child (read_failed e) out h = absurd (ground arith)

  -- A run of git that succeeds was started and ended with success, and returns all that git wrote to its standard output,
  -- which is at most the limit.
  pub run_git_limited-output :
      (child : Child) (out : List ℕ)
      → run_git_limited decode decimal args max child ≡ ok out
      → (child.spawn_error ≡ none)
        × (child.exit ≡ success)
        × (out ≡ stream child.stdout)
        × (length out ≤ max)
  unfolding run_git_limited
  run_git_limited-output child out h = elim (Option-cases child.spawn_error) [
    | inr (e, s) ↦ absurd (ground arith)
    | inl s ↦
        let (c, x) = captured-ok child (read_stdout max [] child.stdout) out (ground arith) in
        let (all, bound) = read_stdout-output max [] child.stdout out (omega arith) c in
        (s, x, all, bound)
  ]
