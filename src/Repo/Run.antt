-- ===== src/Repo/Run.antt =====
-- `run_git_limited` and `drain_stderr` of crates/rgit-git/src/repo.rs (`read_git_stderr` of
-- crates/rgit-http/src/handlers/git_http.rs is the latter again). What the operating system reports in the course of a
-- run is an argument.
pub mod Bounds
use rgit.Common.{
  ℕ, ◌+◌, ◌-◌, ◌*◌, Str, text, ◌++◌, Bool, true, false, Option, none, some, List, [], ◌∷◌, ltb,
  length, take, trim, if◌then◌else◌,
}
use rgit.Error.{Error, git, invalid}
use rgit.Result.{Result, ok, err}

-- One read of a pipe. A read of no bytes is the end of the stream.
pub data Read : Type 0 where
  bytes : List ℕ → Read
  failed : Str → Read
  deadline : Read

pub data Exit : Type 0 where
  success : Exit
  failure : (status : Str) → Exit
  wait_failed : Str → Exit
  wait_deadline : Exit

pub record Child : Type 0 where
  pub spawn_error : Option Str
  pub stdout : List Read
  pub stderr : List Read
  pub exit : Exit

pub data Captured : Type 0 where
  output : List ℕ → Captured
  too_large out_of_time : Captured
  read_failed : Str → Captured

-- The loop of `read_stdout`; after the last read the stream has ended.
unfoldable pub read_stdout : ℕ → List ℕ → List Read → Captured
read_stdout max out [] = output out
read_stdout max out (bytes [] ∷ reads) = output out
read_stdout max out (bytes (b ∷ bs) ∷ reads) =
    let rest = read_stdout max (out ++ (b ∷ bs)) reads in
    if ltb max (length out + length (b ∷ bs)) then too_large else rest
read_stdout max out (failed e ∷ reads) = read_failed e
read_stdout max out (deadline ∷ reads) = out_of_time

abbrev pub log_limit : ℕ
log_limit = 64 * 1024

unfoldable pub drain_stderr : List ℕ → List Read → List ℕ
drain_stderr logged [] = logged
drain_stderr logged (bytes [] ∷ reads) = logged
drain_stderr logged (bytes (b ∷ bs) ∷ reads) =
    drain_stderr (logged ++ take (log_limit - length logged) (b ∷ bs)) reads
drain_stderr logged (failed e ∷ reads) = logged
drain_stderr logged (deadline ∷ reads) = logged

abbrev pub join : List Str → Str
join [] = []
join (a ∷ []) = a
join (a ∷ b ∷ args) = a ++ (text " " ++ join (b ∷ args))

-- String::from_utf8_lossy, and the printing of a number
module _ (decode : List ℕ → Str) (decimal : ℕ → Str) (args : List Str) (max : ℕ) where
  abbrev pub timed_out : Error
  timed_out = git (text "git " ++ (join args ++ text " timed out"))

  abbrev pub waited : Exit → List ℕ → List ℕ → Result (List ℕ)
  waited success out logged = ok out
  waited (failure status) out logged = err (
      git (
        text "git "
        ++ (join args ++ (text " failed (" ++ (status ++ (text "): " ++ trim (decode logged)))))))
  waited (wait_failed e) out logged = err (git (text "waiting for git failed: " ++ e))
  waited wait_deadline out logged = err timed_out

  abbrev pub captured : Child → Captured → Result (List ℕ)
  captured child (output out) = waited child.exit out (drain_stderr [] child.stderr)
  captured child too_large =
      err (invalid (text "git output exceeds " ++ (decimal max ++ text " bytes")))
  captured child (read_failed e) = err (git (text "reading git stdout failed: " ++ e))
  captured child out_of_time = err timed_out

  abbrev pub spawned : Child → Option Str → Result (List ℕ)
  spawned child (some e) = err (git (text "failed to spawn git: " ++ e))
  spawned child none = captured child (read_stdout max [] child.stdout)

  unfoldable pub run_git_limited : Child → Result (List ℕ)
  run_git_limited child = spawned child child.spawn_error
