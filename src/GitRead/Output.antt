-- ===== src/GitRead/Output.antt =====
-- crates/rgit-git/src/read.rs: the parsers of what Git prints, on decoded text.
use rgit.Common.{
  ℕ, Str, text, ◌++◌, Bool, true, false, not, ◌&&◌, ◌||◌, ◌==◌, ltb, Option, none, some, List, [],
  ◌∷◌, ℤ, map, retain, and_then, is_empty, str_eq, reverse, split, split_once, split_whitespace,
  trim, trim_end, parse_i64, unsigned, if◌then◌else◌,
}

pub record CommitInfo : Type 0 where
  pub sha : Str
  pub author_name : Str
  pub author_email : Str
  pub authored_at : Str
  pub message : Str
  pub parents : List Str

pub record TreeEntry : Type 0 where
  pub name : Str
  pub path : Str
  pub kind : Str
  pub mode : Str
  pub sha : Str
  pub size : Option ℤ
  pub latest_commit : Option CommitInfo

pub record RefInfo : Type 0 where
  pub name : Str
  pub sha : Str
  pub target_sha : Option Str

abbrev pub commit_of : Str → Str → Str → Str → Str → Str → CommitInfo
commit_of sha author email date parents message = record {
  sha = trim sha;
  author_name = author;
  author_email = email;
  authored_at = date;
  message = trim_end message;
  parents = split_whitespace parents;
}

-- The chunks of six; a shorter one, which can only be the last, ends the loop.
unfoldable pub records : List Str → List CommitInfo
records (sha ∷ author ∷ email ∷ date ∷ parents ∷ message ∷ rest) =
    commit_of sha author email date parents message ∷ records rest
records _ = []

unfoldable pub parse_commits : Str → List CommitInfo
unfolding records
parse_commits out = records (split 0 out)

abbrev pub entry_path : Str → Str → Str
entry_path path name = if is_empty path then name else path ++ (text "/" ++ name)

-- "<mode> <type> <sha> <size>", or another count of fields
abbrev pub entry_of : Str → Str → List Str → Option TreeEntry
entry_of path name (mode ∷ kind ∷ sha ∷ size ∷ []) = some (record {
  name = name;
  path = entry_path path name;
  kind = kind;
  mode = mode;
  sha = sha;
  size = parse_i64 size;
  latest_commit = none;
})
entry_of path name _ = none

abbrev pub parse_entry : Str → Str → Option TreeEntry
parse_entry path line =
    and_then (split_once (λ c. c == b'\t') line) (λ r. entry_of path r.1 (split_whitespace r.0))

abbrev pub present {ℓ} : {A : Type ℓ} → Option A → List A → List A
present none xs = xs
present (some a) xs = a ∷ xs

abbrev pub filter_map {ℓ κ} : {A : Type ℓ} {B : Type κ} → (A → Option B) → List A → List B
filter_map f [] = []
filter_map f (x ∷ xs) = present (f x) (filter_map f xs)

-- `str::cmp`, strictly before: the order of code points is that of UTF-8
unfoldable pub str_lt : Str → Str → Bool
str_lt s [] = false
str_lt [] (d ∷ t) = true
str_lt (c ∷ s) (d ∷ t) = ltb c d || (c == d && str_lt s t)

abbrev pub is_tree : TreeEntry → Bool
is_tree e = str_eq e.kind (text "tree")

-- The comparison of `sort_by`: directories first, then by name.
unfoldable pub sorts_before : TreeEntry → TreeEntry → Bool
sorts_before a b =
    (is_tree a && not (is_tree b)) || ((is_tree a || not (is_tree b)) && str_lt a.name b.name)

-- A stable sort.
abbrev pub insert_entry : TreeEntry → List TreeEntry → List TreeEntry
insert_entry e [] = e ∷ []
insert_entry e (f ∷ entries) =
    if sorts_before f e then f ∷ insert_entry e entries else e ∷ f ∷ entries

unfoldable pub sort_entries : List TreeEntry → List TreeEntry
sort_entries [] = []
sort_entries (e ∷ entries) = insert_entry e (sort_entries entries)

unfoldable pub parse_tree : Str → List Str → List TreeEntry
parse_tree path pieces =
    sort_entries (filter_map (parse_entry path) (retain (λ r. not (is_empty r)) pieces))

-- str::lines
abbrev pub without_return : Str → Str
without_return [] = []
without_return (c ∷ s) = if c == b'\r' then s else c ∷ s

abbrev pub finished : List Str → List Str
finished [] = []
finished ([] ∷ []) = []
finished (l ∷ ls) = l ∷ finished ls

unfoldable pub lines : Str → List Str
lines s = map (λ l. reverse (without_return (reverse l))) (finished (split b'\n' s))

abbrev pub peeled : List Str → Option Str
peeled [] = none
peeled (s ∷ _) = if is_empty s then none else some s

abbrev pub ref_of : List Str → Option RefInfo
ref_of (name ∷ sha ∷ rest) = some (record { name = name; sha = sha; target_sha = peeled rest })
ref_of _ = none

unfoldable pub parse_refs : Str → List RefInfo
parse_refs out = filter_map (λ line. ref_of (split 0 line)) (lines out)

-- `str::parse::<usize>()`
abbrev pub in_usize : Option ℕ → Option ℕ
in_usize none = none
in_usize (some n) = if ltb n 0x1_0000_0000_0000_0000 then some n else none

unfoldable pub parse_usize : Str → Option ℕ
parse_usize [] = none
parse_usize (c ∷ s) = if c == b'+' then in_usize (unsigned s) else in_usize (unsigned (c ∷ s))
