-- ===== src/GitRead/Commits.antt =====
-- `git log -z` with the source's format, read back: each record is its six fields, every field ended by a NUL.
use rgit.Common.{
  Str, ◌++◌, ◌≡◌, refl, sym, ap, ◌∙◌, false, ◌==◌, List, [], ◌∷◌, map, All, contains, reverse,
  split, split_from, split_whitespace, trim, trim_end, append-nil, append_assoc, reverse-append,
  arith,
}
use rgit.GitRead.Output.{CommitInfo, records, parse_commits}

-- What Git knows of a commit: %H, %an, %ae, %aI, %P and %B.
pub record Fields : Type 0 where
  pub hash : Str
  pub author_name : Str
  pub author_email : Str
  pub author_date : Str
  pub parents : Str
  pub body : Str

abbrev pub field : Str → Str → Str
field f rest = f ++ (0 ∷ rest)

abbrev pub print_log : List Fields → Str
print_log [] = []
print_log (c ∷ cs) = field c.hash (
    field c.author_name
      (field c.author_email (field c.author_date (field c.parents (field c.body (print_log cs))))))

abbrev pub HasNoNul : Str → Type 0
HasNoNul s = contains 0 s ≡ false

abbrev pub IsClean : Fields → Type 0
IsClean c =
    HasNoNul c.hash
    × HasNoNul c.author_name
    × HasNoNul c.author_email
    × HasNoNul c.author_date
    × HasNoNul c.parents
    × HasNoNul c.body

-- The commit as the API shows it.
abbrev pub info : Fields → CommitInfo
info c = record {
  sha = trim c.hash;
  author_name = c.author_name;
  author_email = c.author_email;
  authored_at = c.author_date;
  message = trim_end c.body;
  parents = split_whitespace c.parents;
}

split_from-field :
    (f acc rest : Str)
    → HasNoNul f
    → split_from 0 acc (f ++ (0 ∷ rest)) ≡ (reverse acc ++ f) ∷ split_from 0 [] rest
unfolding split_from
split_from-field [] acc rest h = ap (λ p. p ∷ split_from 0 [] rest) (sym (append-nil (reverse acc)))
split_from-field (c ∷ f) acc rest h =
    let e : (c == 0) ≡ false = ground arith in
    rw e (
      split_from-field f (c ∷ acc) rest (ground arith)
      ∙ ap (λ p. p ∷ split_from 0 [] rest)
          (ap (λ r. r ++ f) (reverse-append (c ∷ []) acc) ∙ append_assoc (reverse acc) (c ∷ []) f))

split-field : (f rest : Str) → HasNoNul f → split 0 (field f rest) ≡ f ∷ split 0 rest
unfolding split
split-field f rest h = split_from-field f [] rest h

split-empty : split 0 [] ≡ [] ∷ []
unfolding split split_from
split-empty = refl

-- What Git prints of any commits whose fields hold no NUL is read back as these commits, in order: the author's name,
-- address and date as they are, the hash trimmed, the body trimmed at its end, and the parents cut into words.
pub parse_commits-print_log :
    (cs : List Fields) → All IsClean cs → parse_commits (print_log cs) ≡ map info cs
unfolding parse_commits records
parse_commits-print_log [] h = rw split-empty refl
parse_commits-print_log (c ∷ cs) h =
    let f6 = field c.body (print_log cs) in
    let f5 = field c.parents f6 in
    let f4 = field c.author_date f5 in
    let f3 = field c.author_email f4 in
    let f2 = field c.author_name f3 in
    let clean = h.0 in
    rw (split-field c.hash f2 clean.0) (
      rw (split-field c.author_name f3 clean.1) (
        rw (split-field c.author_email f4 clean.2) (
          rw (split-field c.author_date f5 clean.3) (
            rw (split-field c.parents f6 clean.4) (
              rw (split-field c.body (print_log cs) clean.5)
                (ap (λ l. info c ∷ l) (parse_commits-print_log cs h.1)))))))
