-- ===== src/Account/Keys/Registered.antt =====
-- What the registration and the deletion of a key do to the file of sshd, and to the forced command.
use rgit.Common.{
  ℕ, ◌≢◌, Str, ◌≡◌, refl, sym, ap, ◌∙◌, subst, true, false, not, ◌==◌, List, [], ◌∷◌, none, Memᴰ,
  retain-Mem, retain, arith, Bool-cases, inl, inr, length, is_some, find, str_eq, str_eq_iff,
}
use rgit.Result.{ok}
use rgit.Models.{User, SshKey}
use rgit.Store.{Db, World, query, execute, pure, lift, check, ◌>>=◌, ◌>>◌}
use rgit.Store.Calls.{bind-eq-ok, query-eq-ok, execute-eq-ok}
use rgit.Tables.Keys.{Distinct, Distinct-eq, lt-next_id, has_id}
use rgit.SshKey.{ParsedKey, parse_public_key}
use rgit.AuthorizedKeys.{SshConfig, sync, sync_if_enabled}
use rgit.AuthorizedKeys.Listed.{IsListing, sync-IsListing, sync-db}
use rgit.Account.Keys.{
  CreateKey, new_key, insert_key, delete_key, is_own_key, with_fingerprint, register, create,
  delete,
}
use rgit.Shell.Run.{Ran, Host, completed, run}
use rgit.Shell.Run.Authorized.{HoldsKey, run-Authorized}

not-has_id :
    (n : ℕ) (ks : List SshKey)
    → ((j : SshKey) → Memᴰ j ks → j.id ≢ n)
    → has_id (λ (r : SshKey). r.id) n ks ≡ false
not-has_id n [] h = refl
not-has_id n (k ∷ ks) h = elim (Bool-cases (k.id == n)) [
  | inl t ↦ absurd (h k (Memᴰ.head refl) (ground arith))
  | inr f ↦ ground (arith, not-has_id n ks (λ j m. h j (Memᴰ.tail m)))
]

no_fingerprint :
    (f : Str) (ks : List SshKey)
    → find (λ k. str_eq k.fingerprint_sha256 f) ks ≡ none
    → (j : SshKey) → Memᴰ j ks
    → j.fingerprint_sha256 ≢ f
no_fingerprint f [] h j m e = elim m [ ]
no_fingerprint f (k ∷ ks) h j (Memᴰ.head same) e =
    let it : k.fingerprint_sha256 ≡ f = ap (λ (r : SshKey). r.fingerprint_sha256) (sym same) ∙ e in
    absurd (ground (arith, (str_eq_iff k.fingerprint_sha256 f).1 it))
no_fingerprint f (k ∷ ks) h j (Memᴰ.tail m) e = no_fingerprint f ks (ground arith) j m e

module _ (config : SshConfig) where
  if_enabled-IsListing :
      (n : ℕ) (w v : World)
      → sync_if_enabled config w ≡ (ok n, v)
      → config.enabled ≡ true
      → Distinct (λ (k : SshKey). k.id) w.db.ssh_keys
      → IsListing config v.db v.authorized_keys
  unfolding sync_if_enabled
  if_enabled-IsListing n w v h on distinct =
      let synced : sync config w ≡ (ok n, v) = ground arith in
      subst (λ d. IsListing config d v.authorized_keys) (sym (sync-db config n w v synced))
        (sync-IsListing config n w v synced distinct)

  if_enabled-db : (n : ℕ) (w v : World) → sync_if_enabled config w ≡ (ok n, v) → v.db ≡ w.db
  unfolding sync_if_enabled
  if_enabled-db n w v h = elim (Bool-cases config.enabled) [
    | inl t ↦ sync-db config n w v (ground arith)
    | inr f ↦ ground arith
  ]

  -- A key that was registered.
  pub record Registered (user : User) (req : CreateKey) (k : SshKey) (d e : Db) : Type 0 where
    pub parsed : ParsedKey
    pub accepted : parse_public_key config.codec req.key ≡ ok parsed
    pub is_new : (j : SshKey) → Memᴰ j d.ssh_keys → j.fingerprint_sha256 ≢ parsed.fingerprint_sha256
    pub normalized : k.key ≡ parsed.normalized
    pub fingerprint : k.fingerprint_sha256 ≡ parsed.fingerprint_sha256
    pub owner : k.user_id ≡ user.id
    pub new_id : (j : SshKey) → Memᴰ j d.ssh_keys → j.id ≢ k.id
    pub stored : e.ssh_keys ≡ k ∷ d.ssh_keys

  insert_key-Registered :
      (user : User) (req : CreateKey) (parsed : ParsedKey) (k : SshKey) (d e : Db)
      → parse_public_key config.codec req.key ≡ ok parsed
      → with_fingerprint parsed.fingerprint_sha256 d ≡ none
      → insert_key (new_key user req parsed) d ≡ ok (k, e)
      → Registered user req k d e
  unfolding insert_key
  insert_key-Registered user req parsed k d e a b h = record {
    parsed = parsed;
    accepted = a;
    is_new = λ j m e. no_fingerprint parsed.fingerprint_sha256 d.ssh_keys b j m e;
    normalized = ground arith;
    fingerprint = ground arith;
    owner = ground arith;
    new_id = λ j m e.
        let below = lt-next_id (λ (r : SshKey). r.id) d.ssh_keys j m in absurd (ground arith);
    stored = ground arith;
  }

  register-Registered :
      (user : User) (req : CreateKey) (parsed : ParsedKey) (k : SshKey) (w v : World)
      → parse_public_key config.codec req.key ≡ ok parsed
      → register config user req parsed w ≡ (ok k, v)
      → Distinct (λ (k : SshKey). k.id) w.db.ssh_keys
      → Registered user req k w.db v.db
        × (config.enabled ≡ true → IsListing config v.db v.authorized_keys)
  register-Registered user req parsed k w v a h distinct =
      let insert = execute (insert_key (new_key user req parsed)) in
      let publish = λ (key : SshKey). sync_if_enabled config >>= (λ _. pure key) in
      let (o, x, b, c) =
        bind-eq-ok (query (with_fingerprint parsed.fingerprint_sha256))
          (λ existing. check (not (is_some existing)) _ >> (insert >>= publish)) w h in
      let (_, y, d, e) = bind-eq-ok (check (not (is_some o)) _) (λ _. insert >>= publish) x c in
      let (key, z, f, g) = bind-eq-ok insert publish y e in
      let (n, t, i, j) = bind-eq-ok (sync_if_enabled config) (λ _. pure key) z g in
      let (read, kept) = query-eq-ok (with_fingerprint parsed.fingerprint_sha256) w x b in
      let (row, _, _) = execute-eq-ok (insert_key (new_key user req parsed)) y z f in
      let before : y.db ≡ w.db = ground arith in
      let last : t ≡ v = ground arith in
      let after : v.db ≡ z.db = ap (λ (q : World). q.db) (sym last) ∙ if_enabled-db n z t i in
      let fresh : with_fingerprint parsed.fingerprint_sha256 w.db ≡ none = ground arith in
      let same : key ≡ k = ground arith in
      let done : Registered user req k w.db z.db =
        insert_key-Registered user req parsed k w.db z.db a fresh (
          subst (λ q. insert_key (new_key user req parsed) w.db ≡ ok (q, z.db)) same
            (ap (insert_key (new_key user req parsed)) (sym before) ∙ row)) in
      let ids : Distinct (λ (r : SshKey). r.id) z.db.ssh_keys =
        subst (Distinct (λ (r : SshKey). r.id)) (sym done.stored)
          (not-has_id k.id w.db.ssh_keys done.new_id, distinct) in
      (
        subst (λ e. Registered user req k w.db e) (sym after) done,
        λ on.
            subst (λ (q : World). IsListing config q.db q.authorized_keys) last
              (if_enabled-IsListing n z t i on ids),
      )

  -- Whatever calls fail: a key whose registration succeeds, among keys with distinct ids, is one that parses, and no key
  -- had its fingerprint or its id; it is stored in its normalized form as the caller's, in front of the others; and if
  -- sshd is served, its file is now one line for each key of an active user and nothing else, each line with the forced
  -- command of that key, all four features withheld, and the normalized key.
  pub create-Registered :
      (user : User) (req : CreateKey) (k : SshKey) (w v : World)
      → create config user req w ≡ (ok k, v)
      → Distinct (λ (k : SshKey). k.id) w.db.ssh_keys
      → Registered user req k w.db v.db
        × (config.enabled ≡ true → IsListing config v.db v.authorized_keys)
  unfolding create
  create-Registered user req k w v h distinct =
      let (parsed, x, a, b) =
        bind-eq-ok (lift (parse_public_key config.codec req.key)) (register config user req) w h in
      let same : x ≡ w = ground arith in
      register-Registered user req parsed k w v (ground arith)
        (subst (λ q. register config user req parsed q ≡ (ok k, v)) same b) distinct

-- A row that one could delete by its id and user is the only one of its id, and it is gone.
deleted-gone :
    (id user_id : ℕ) (ks : List SshKey) (k : SshKey)
    → Distinct (λ (r : SshKey). r.id) ks
    → length (retain (is_own_key id user_id) ks) == 0 ≡ false
    → Memᴰ k (retain (λ r. not (is_own_key id user_id r)) ks)
    → k.id == id ≡ false
deleted-gone id user_id ks k d some_row m =
    let (n, kept) = retain-Mem (λ r. not (is_own_key id user_id r)) ks k m in
    let (o, own, t) = a_row (retain (is_own_key id user_id) ks) some_row in
    let (j, is_own) = retain-Mem (is_own_key id user_id) ks o own in
    elim (Bool-cases (k.id == id)) [
      | inr f ↦ f
      | inl e ↦
          let same : k ≡ o = Distinct-eq (λ (r : SshKey). r.id) ks k o d n j (ground arith) in
          absurd (ground arith)
    ]
  where
    a_row : (rows : List SshKey) → length rows == 0 ≡ false → (o : SshKey) × Memᴰ o rows × Unit {0}
    a_row [] h = absurd (ground arith)
    a_row (r ∷ rows) h = (r, Memᴰ.head refl, tt)

module _ (config : SshConfig) (host : Host) where
  delete-NoKey :
      (user : User) (id : ℕ) (w v : World)
      → delete config user id w ≡ (ok tt, v)
      → Distinct (λ (r : SshKey). r.id) w.db.ssh_keys
      → (k : SshKey) → Memᴰ k v.db.ssh_keys
      → k.id == id ≡ false
  unfolding delete delete_key
  delete-NoKey user id w v h d k t =
      let affected_row = λ (affected : ℕ).
        check (not (affected == 0)) _ >> (sync_if_enabled config >>= (λ _. pure tt)) in
      let (n, x, a, b) = bind-eq-ok (execute (delete_key id user.id)) affected_row w h in
      let (_, y, c, e) =
        bind-eq-ok (check (not (n == 0)) _) (λ _. sync_if_enabled config >>= (λ _. pure tt)) x b in
      let (m, z, f, g) = bind-eq-ok (sync_if_enabled config) (λ _. pure tt) y e in
      let (rows, _, _) = execute-eq-ok (delete_key id user.id) w x a in
      let end : z ≡ v = ground arith in
      let checked : x ≡ y = ground arith in
      let nonzero : n == 0 ≡ false = ground arith in
      let after : v.db ≡ x.db =
        ap (λ (q : World). q.db) (sym end)
        ∙ if_enabled-db config m y z f
        ∙ ap (λ (q : World). q.db) (sym checked) in
      let kept : x.db.ssh_keys ≡ retain (λ r. not (is_own_key id user.id r)) w.db.ssh_keys =
        ground arith in
      let count : n ≡ length (retain (is_own_key id user.id) w.db.ssh_keys) = ground arith in
      let rest : v.db.ssh_keys ≡ retain (λ r. not (is_own_key id user.id r)) w.db.ssh_keys =
        ap (λ (q : Db). q.ssh_keys) after ∙ kept in
      deleted-gone id user.id w.db.ssh_keys k d (subst (λ t. t == 0 ≡ false) count nonzero)
        (subst (λ t. Memᴰ k t) rest t)

  -- A key that its user has deleted, from keys with distinct ids, gets nothing as long as its id is not given to another
  -- key: whatever command line comes with it, and whatever calls fail, no service of Git is started, and the run does
  -- not complete, so that no grant is printed.
  pub delete-Revoked :
      (user : User) (id : ℕ) (original : Str) (w v x : World)
      → delete config user id w ≡ (ok tt, v)
      → Distinct (λ (k : SshKey). k.id) w.db.ssh_keys
      → ((k : SshKey) → Memᴰ k x.db.ssh_keys → k.id ≡ id → Memᴰ k v.db.ssh_keys)
      → ((run host id original x).1.started ≡ x.started)
        × ((r : Ran) → (run host id original x).0 ≢ completed r)
  delete-Revoked user id original w v x h d no_new =
      let no_holder : (u : User) → HoldsKey x.db id u → ⊥ = λ u holds.
        let (_, _, k, m, e, _) = holds in
        let gone = delete-NoKey user id w v h d k (no_new k m e) in absurd (ground arith) in
      let (starts, completes) = run-Authorized host id original x in
      (
        elim starts [
          | inl same ↦ same
          | inr (s, p, _, permitted) ↦ absurd (no_holder permitted.user permitted.key)
        ],
        λ r e. let permitted = completes r e in no_holder permitted.user permitted.key,
      )
