-- ===== src/Lfs/Upload/Stored.antt =====
-- What an upload leaves behind: only objects that hash to their name, and all rows or none.
use rgit.Common.{
  text, ◌∙◌, ℕ, ◌+◌, ◌≤◌, ◌≡◌, refl, sym, subst, Str, ◌++◌, Bool, true, false, not, ◌&&◌, ltb, List,
  [], ◌∷◌, pos, length, str_eq, str_eq_iff, arith, Bool-cases, inl, inr, Memᴰ, retain-Mem,
  length-append, append-nil, append_assoc, if◌then◌else◌,
}
use rgit.Store.{Db, World}
use rgit.Outcome.{Outcome, done, refused, L, continue, ◌>>=◌, ◌>>◌, refuse, give}
use rgit.Lfs.Upload.{
  prepared, finish, call, receive, put_file, rename_part, insert_object, link_object, record_rows,
  check_digest, store_streaming,
}

-- An action that changes neither the tables nor the stored files.
pub record Quiet {ℓ} {A : Type ℓ} (m : L A) : Type 0 where
  pub db : (w : World) → (m w).1.db ≡ w.db
  pub files : (w : World) → (m w).1.lfs_files ≡ w.lfs_files

module _ {ℓ κ} {A : Type ℓ} {B : Type κ} where
  continue-files :
      (P : List (Str × List ℕ) → Type 0) (r : Outcome A × World) (f : A → L B)
      → P r.1.lfs_files
      → ((a : A) (w : World) → P w.lfs_files → P (f a w).1.lfs_files)
      → P (continue r f).1.lfs_files
  continue-files P (done a, w) f h k = k a w h
  continue-files P (refused s m, w) f h k = h

  pub continue-db :
      (d : Db) (r : Outcome A × World) (f : A → L B)
      → r.1.db ≡ d
      → ((a : A) (w : World) → w.db ≡ d → (f a w).1.db ≡ d)
      → (continue r f).1.db ≡ d
  continue-db d (done a, w) f h k = k a w h
  continue-db d (refused s m, w) f h k = h

  pub bind-Quiet : (m : L A) (f : A → L B) → Quiet m → ((a : A) → Quiet (f a)) → Quiet (m >>= f)
  bind-Quiet m f h k = record {
    db = λ w. continue-db w.db (m w) f (h.db w) (λ a v e. (k a).db v ∙ e);
    files =
        λ w. continue-files (λ r. r ≡ w.lfs_files) (m w) f (h.files w) (λ a v e. (k a).files v ∙ e);
  }

module _ {ℓ} {A : Type ℓ} where
  give-Quiet : (a : A) → Quiet (give a)
  give-Quiet a = record { db = λ w. refl; files = λ w. refl }

  if-Quiet : (b : Bool) (m n : L A) → Quiet m → Quiet n → Quiet (if b then m else n)
  if-Quiet true m n h k = h
  if-Quiet false m n h k = k

  refuse-Quiet : (s : ℕ) (m : Str) → Quiet (refuse {A = A} s m)
  refuse-Quiet s m = record { db = λ w. refl; files = λ w. refl }

pub call-Quiet : Quiet call
call-Quiet = record { db = λ w. refl; files = λ w. refl }

receive-Quiet :
    (max n : ℕ) (bytes : List ℕ) (chunks : List (List ℕ)) → Quiet (receive max n bytes chunks)
receive-Quiet max n bytes [] = give-Quiet bytes
receive-Quiet max n bytes (chunk ∷ chunks) = bind-Quiet call _ call-Quiet (λ _.
    if-Quiet (ltb 0 max && ltb max (n + length chunk)) _ _ (refuse-Quiet _ _) (
      bind-Quiet call _ call-Quiet
        (λ _. receive-Quiet max (n + length chunk) (bytes ++ chunk) chunks)))

module _ {ℓ κ} {A : Type ℓ} {B : Type κ} where
  continue-done :
      (r : Outcome A × World) (f : A → L B) {b : B} {v : World}
      → continue r f ≡ (done b, v)
      → (a : A) × (x : World) × (r ≡ (done a, x)) × (f a x ≡ (done b, v))
  continue-done (done a, x) f h = (a, x, refl, h)
  continue-done (refused s m, x) f h = cc

  pub bind-eq-done :
      (m : L A) (f : A → L B) (w : World) {b : B} {v : World}
      → (m >>= f) w ≡ (done b, v)
      → (a : A) × (x : World) × (m w ≡ (done a, x)) × (f a x ≡ (done b, v))
  bind-eq-done m f w h = continue-done (m w) f h

module _ {ℓ} {A : Type ℓ} where
  -- A quiet action that goes through leaves the tables and files.
  pub after-Quiet :
      (m : L A)
      → Quiet m
      → (w x : World) (a : A) → m w ≡ (done a, x)
      → (x.db ≡ w.db) × (x.lfs_files ≡ w.lfs_files)
  after-Quiet m q w x a e = (
    subst (λ (r : Outcome A × World). r.1.db ≡ w.db) e (q.db w),
    subst (λ (r : Outcome A × World). r.1.lfs_files ≡ w.lfs_files) e (q.files w),
  )

  pub unless-done :
      (b : Bool) (s : ℕ) (m : Str) (n : L A) (w x : World) (a : A)
      → (if b then refuse s m else n) w ≡ (done a, x)
      → (b ≡ false) × (n w ≡ (done a, x))
  unless-done true s m n w x a h = cc
  unless-done false s m n w x a h = (refl, h)

abbrev pub concat : List (List ℕ) → List ℕ
concat [] = []
concat (c ∷ cs) = c ++ concat cs

-- The bytes received are the chunks in order, and no more than the limit.
pub receive-done :
    (max : ℕ) (bytes : List ℕ) (chunks : List (List ℕ)) (w x : World) (all : List ℕ)
    → receive max (length bytes) bytes chunks w ≡ (done all, x)
    → (1 ≤ max → length bytes ≤ max)
    → (all ≡ bytes ++ concat chunks) × (1 ≤ max → length all ≤ max)
receive-done max bytes [] w x all h low =
    let e : bytes ≡ all = cc in
    (sym (append-nil bytes ∙ e), λ p. subst (λ b. length b ≤ max) e (low p))
receive-done max bytes (chunk ∷ chunks) w x all h low =
    let n = length bytes + length chunk in
    let rest = receive max n (bytes ++ chunk) chunks in
    let over = ltb 0 max && ltb max n in
    let (_, y, _, b) =
      bind-eq-done call (λ _. if over then refuse 422 (text "object too large") else (call >> rest))
        w h in
    let (fits, c) = unless-done over 422 (text "object too large") (call >> rest) y x all b in
    let (_, z, _, d) = bind-eq-done call (λ _. rest) y c in
    let len = length-append bytes chunk in
    let d' : receive max (length (bytes ++ chunk)) (bytes ++ chunk) chunks z ≡ (done all, x) =
      rw len d in
    let (e, bound) = receive-done max (bytes ++ chunk) chunks z x all d' (λ p. ground arith) in
    (e ∙ append_assoc bytes chunk (concat chunks), bound)

module _ (sha256_hex : List ℕ → Str) where
  -- Every stored object hashes to its name.
  abbrev pub Intact : List (Str × List ℕ) → Type 0
  Intact files = (f : Str × List ℕ) → Memᴰ f files → sha256_hex f.1 ≡ f.0

  put_file-Intact :
      (oid : Str) (bytes : List ℕ) (files : List (Str × List ℕ))
      → sha256_hex bytes ≡ oid
      → Intact files
      → Intact (put_file oid bytes files)
  put_file-Intact oid bytes files h v f (Memᴰ.head e) = rw e h
  put_file-Intact oid bytes files h v f (Memᴰ.tail m) =
      v f (retain-Mem (λ (g : Str × List ℕ). not (str_eq g.0 oid)) files f m).0

  check_digest-Quiet : (oid : Str) (bytes : List ℕ) → Quiet (check_digest sha256_hex oid bytes)
  check_digest-Quiet oid bytes =
      if-Quiet (not (str_eq (sha256_hex bytes) oid)) _ _ (refuse-Quiet _ _) (give-Quiet tt)

  pub prepared-Quiet : (oid : Str) (bytes : List ℕ) → Quiet (prepared sha256_hex oid bytes)
  prepared-Quiet oid bytes =
      bind-Quiet (call >> check_digest sha256_hex oid bytes) _
        (bind-Quiet call _ call-Quiet (λ _. check_digest-Quiet oid bytes)) (λ _. call-Quiet)

  pub prepared-digest :
      (oid : Str) (bytes : List ℕ) (w x : World)
      → prepared sha256_hex oid bytes w ≡ (done tt, x)
      → sha256_hex bytes ≡ oid
  prepared-digest oid bytes w x h =
      let (_, y, a, _) = bind-eq-done (call >> check_digest sha256_hex oid bytes) (λ _. call) w h in
      let (_, z, _, c) = bind-eq-done call (λ _. check_digest sha256_hex oid bytes) w a in
      let (same, _) =
        unless-done (not (str_eq (sha256_hex bytes) oid)) 422 (text "oid/size mismatch") (give tt) z
          y tt c in
      (str_eq_iff (sha256_hex bytes) oid).0 (ground arith)

  rename_part-Intact :
      (oid : Str) (bytes : List ℕ) (w : World)
      → sha256_hex bytes ≡ oid
      → Intact w.lfs_files
      → Intact (rename_part oid bytes w).1.lfs_files
  rename_part-Intact oid bytes w h v = elim (Bool-cases (w.fails w.calls)) [
    | inl t ↦ rw t v
    | inr f ↦ rw f (put_file-Intact oid bytes w.lfs_files h v)
  ]

  record_rows-files :
      (project_id size : ℕ) (oid : Str) (w : World)
      → (record_rows project_id oid size w).1.lfs_files ≡ w.lfs_files
  record_rows-files project_id size oid w =
      let d : Db = link_object project_id oid (insert_object oid (pos size) w.db) in
      let calls-Quiet =
        bind-Quiet (call >> call >> call) _
          (bind-Quiet (call >> call) _ (bind-Quiet call _ call-Quiet (λ _. call-Quiet))
            (λ _. call-Quiet))
          (λ _. call-Quiet) in
      continue-files (λ r. r ≡ w.lfs_files) ((call >> call >> call >> call) w)
        (λ _ v. (done tt, record v { db = d })) (calls-Quiet.files w) (λ _ v e. e)

  finish-Intact :
      (project_id : ℕ) (oid : Str) (bytes : List ℕ) (w : World)
      → Intact w.lfs_files
      → Intact (finish sha256_hex project_id oid bytes w).1.lfs_files
  finish-Intact project_id oid bytes w v = from (prepared sha256_hex oid bytes w) refl
    where
      from :
          (r : Outcome (Unit {0}) × World)
          → prepared sha256_hex oid bytes w ≡ r
          → Intact
              (continue
                (continue r (λ _. rename_part oid bytes))
                (λ _. record_rows project_id oid (length bytes))).1.lfs_files
      from (done _, x) e =
          let (_, same) =
            after-Quiet (prepared sha256_hex oid bytes) (prepared-Quiet oid bytes) w x tt e in
          continue-files Intact (rename_part oid bytes x) _
            (rename_part-Intact oid bytes x (prepared-digest oid bytes w x e) (rw same v))
            (λ _ y k. rw (record_rows-files project_id (length bytes) oid y) k)
      from (refused s m, x) e =
          let same : x.lfs_files ≡ w.lfs_files =
            subst (λ (r : Outcome (Unit {0}) × World). r.1.lfs_files ≡ w.lfs_files) e
              ((prepared-Quiet oid bytes).files w) in
          rw same v

  pub received-Quiet :
      (max : ℕ) (chunks : List (List ℕ)) → Quiet (call >> call >> receive max 0 [] chunks)
  received-Quiet max chunks =
      bind-Quiet (call >> call) _ (bind-Quiet call _ call-Quiet (λ _. call-Quiet))
        (λ _. receive-Quiet max 0 [] chunks)

  -- An upload of any chunks under any name, whichever calls fail and whether it succeeds or not,
  -- keeps every stored object's bytes hashing to its name.
  pub store_streaming-Intact :
      (max project_id : ℕ) (oid : Str) (chunks : List (List ℕ)) (w : World)
      → Intact w.lfs_files
      → Intact (store_streaming sha256_hex max project_id oid chunks w).1.lfs_files
  unfolding store_streaming
  store_streaming-Intact max project_id oid chunks w v =
      continue-files Intact ((call >> call >> receive max 0 [] chunks) w)
        (finish sha256_hex project_id oid) (rw ((received-Quiet max chunks).files w) v)
        (λ bytes x k. finish-Intact project_id oid bytes x k)
