-- ===== src/Shell/Parsed.antt =====
-- What a parsed command line names.
use rgit.Common.{
  sym, reverse-append, reverse-reverse, append_assoc, is_whitespace, trim, ℕ, ◌≡◌, refl, ap, Str,
  text, ◌++◌, false, ◌==◌, Option, none, some, [], ◌∷◌, is_empty, contains, strip_prefix,
  strip_suffix, split_once, split_once-parts, and_then, arith, reverse,
}
use rgit.Shell.{
  stripped, without_suffix, normal_name, action_of, ShellCommand, ShellAction, bad_part,
  check_parts, parse_repository_path, command_of, parse_command,
}

-- Two path segments that stay below the namespace: neither is empty, has a slash or a control character.
pub record IsSafe (namespace project : Str) : Type 0 where
  pub has_namespace : is_empty namespace ≡ false
  pub has_project : is_empty project ≡ false
  pub no_slash : contains b'/' project ≡ false
  pub no_slash' : contains b'/' namespace ≡ false
  pub no_control : bad_part namespace ≡ false
  pub no_control' : bad_part project ≡ false

and_then-some {ℓ κ} :
    {A : Type ℓ} {B : Type κ} (o : Option A) (f : A → Option B) {b : B}
    → and_then o f ≡ some b
    → (a : A) × (o ≡ some a) × (f a ≡ some b)
and_then-some none f h = cc
and_then-some (some a) f h = (a, refl, h)

check_parts-IsSafe :
    (p r : Str × Str) → check_parts p ≡ some r → contains b'/' p.0 ≡ false → IsSafe r.0 r.1
check_parts-IsSafe (n, p) (n', p') h k = record {
  has_namespace = ground arith;
  has_project = ground arith;
  no_slash = ground arith;
  no_slash' = ground arith;
  no_control = ground arith;
  no_control' = ground arith;
}

path-IsSafe : (path : Str) (r : Str × Str) → parse_repository_path path ≡ some r → IsSafe r.0 r.1
unfolding parse_repository_path
path-IsSafe path r h =
    let (p, e, k) = and_then-some (split_once (λ c. c == b'/') (stripped path)) check_parts h in
    check_parts-IsSafe p r k (split_once-parts (stripped path) b'/' p e).1

command_of-IsSafe :
    (a : ShellAction × Str) (c : ShellCommand)
    → command_of a ≡ some c
    → IsSafe c.namespace c.project
command_of-IsSafe (action, path) c h =
    let (p, e, k) = and_then-some (parse_repository_path path) _ h in
    let n : p.0 ≡ c.namespace = ground arith in
    let q : p.1 ≡ c.project = ground arith in rw (← n) (rw (← q) (path-IsSafe path p e))

-- A command line that is accepted names a namespace and a project, neither of which is empty or has a
-- slash or a control character.
pub parse_command-IsSafe :
    (raw : Str) (c : ShellCommand) → parse_command raw ≡ some c → IsSafe c.namespace c.project
unfolding parse_command
parse_command-IsSafe raw c h =
    let (a, _, k) =
      and_then-some
        (and_then (and_then (split_once is_whitespace (trim raw)) normal_name) action_of) command_of
        h in
    command_of-IsSafe a c k

strip_prefix-append : (p s : Str) → strip_prefix p (p ++ s) ≡ some s
unfolding strip_prefix
strip_prefix-append [] s = refl
strip_prefix-append (c ∷ p) s = ground (arith, strip_prefix-append p s)

strip_suffix-append : (p s : Str) → strip_suffix p (s ++ p) ≡ some s
unfolding strip_suffix
strip_suffix-append p s =
    rw (reverse-append s p)
      (rw (strip_prefix-append (reverse p) (reverse s)) (ap some (reverse-reverse s)))

pub split_once-append :
    (c : ℕ) (s t : Str)
    → contains c s ≡ false
    → split_once (λ d. d == c) (s ++ (c ∷ t)) ≡ some (s, t)
unfolding split_once
split_once-append c [] t h = ground arith
split_once-append c (d ∷ s) t h =
    let k : contains c s ≡ false = ground arith in
    let e : d == c ≡ false = ground arith in rw e (rw (split_once-append c s t k) refl)

no-prefix :
    (n t : Str)
    → is_empty n ≡ false
    → contains b'/' n ≡ false
    → strip_prefix (text "/") (n ++ t) ≡ none
unfolding strip_prefix
no-prefix [] t h k = cc
no-prefix (c ∷ n) t h k = ground arith

check_parts-some : (n p : Str) → IsSafe n p → check_parts (n, p) ≡ some (n, p)
check_parts-some n p s =
    ground (arith, s.has_namespace, s.has_project, s.no_slash, s.no_control, s.no_control')

stripped-joined :
    (n p : Str)
    → is_empty n ≡ false
    → contains b'/' n ≡ false
    → stripped (n ++ (b'/' ∷ (p ++ text ".git"))) ≡ n ++ (b'/' ∷ p)
stripped-joined n p h k =
    let a = no-prefix n (b'/' ∷ (p ++ text ".git")) h k in
    let e : n ++ (b'/' ∷ (p ++ text ".git")) ≡ (n ++ (b'/' ∷ p)) ++ text ".git" =
      sym (append_assoc n (b'/' ∷ p) (text ".git")) in
    let b = strip_suffix-append (text ".git") (n ++ (b'/' ∷ p)) in
    let c : without_suffix ((n ++ (b'/' ∷ p)) ++ text ".git") ≡ n ++ (b'/' ∷ p) = rw b refl in
    rw a (rw e c)

-- `namespace/project.git`, for a namespace and a project as a command line may name them, is read back
-- as the two.
pub parse_repository_path-joined :
    (n p : Str)
    → IsSafe n p
    → parse_repository_path (n ++ (b'/' ∷ (p ++ text ".git"))) ≡ some (n, p)
unfolding parse_repository_path
parse_repository_path-joined n p s =
    let a = stripped-joined n p s.has_namespace s.no_slash' in
    let b = split_once-append b'/' n p s.no_slash' in rw a (rw b (check_parts-some n p s))
