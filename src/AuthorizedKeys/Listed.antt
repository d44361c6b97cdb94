-- ===== src/AuthorizedKeys/Listed.antt =====
-- What the file lists after it was written.
use rgit.Common.{
  ℕ, Str, ◌++◌, ◌≡◌, refl, sym, text, true, ◌==◌, ◌&&◌, append_assoc, str_eq_iff, Mem-of_any,
  any-of_Mem, retain, List, [], ◌∷◌, Memᴰ, Mem-retain, retain-Mem, arith, length,
}
use rgit.Result.{Result, ok, err}
use rgit.Models.{User, SshKey, is_active}
use rgit.AuthorizedKeys.Ordered.{by_id-Mem, Mem-by_id, Distinct-by_id}
use rgit.Store.{Db, World, query, pure, lift, ◌>>=◌, ◌>>◌}
use rgit.Store.Calls.{bind-eq-ok, query-eq-ok}
use rgit.Tables.Keys.{Distinct, Distinct-retain}
use rgit.SshKey.{ParsedKey, parse_public_key}
use rgit.AuthorizedKeys.{
  SshConfig, has_active_user, active_keys, write_file, atomic_write, key_line, with_line, body_of,
  sync,
}

-- The key is that of an active user.
abbrev pub IsServed : Db → SshKey → Type 0
IsServed d k = (u : User) × Memᴰ u d.users × (u.id ≡ k.user_id) × (u.state ≡ text "active")

has_active_user-IsServed : (d : Db) (k : SshKey) → has_active_user d k ≡ true → IsServed d k
has_active_user-IsServed d k t =
    let (u, m, e) = Mem-of_any (λ u. u.id == k.user_id && is_active u) d.users t in
    (u, m, ground arith, (str_eq_iff u.state (text "active")).0 (ground arith))

IsServed-has_active_user : (d : Db) (k : SshKey) → IsServed d k → has_active_user d k ≡ true
IsServed-has_active_user d k (u, m, e, a) =
    any-of_Mem (λ u. u.id == k.user_id && is_active u) d.users u m
      (ground (arith, (str_eq_iff u.state (text "active")).1 a))

-- Texts with commas between them.
abbrev pub comma_separated : Str → List Str → Str
comma_separated s [] = s
comma_separated s (t ∷ ts) = s ++ (text "," ++ comma_separated t ts)

module _ (config : SshConfig) where
  -- The command that sshd runs for the key, and the features that it withholds.
  abbrev pub forced_command : ℕ → Str
  forced_command id =
      text "command=\""
      ++ (config.shell_path
          ++ (text " --config "
              ++ (config.shell_config ++ (text " --key-id " ++ (config.decimal id ++ text "\"")))))

  abbrev pub withheld : List Str
  withheld =
      text "no-port-forwarding"
      ∷ text "no-X11-forwarding"
      ∷ text "no-agent-forwarding"
      ∷ text "no-pty"
      ∷ []

  -- The line of a key: its options, and the key in normalized form.
  pub data IsLine (k : SshKey) (s : Str) : Type 0 where
    line :
        (parsed : ParsedKey)
        → parse_public_key config.codec k.key ≡ ok parsed
        → s
          ≡ comma_separated (forced_command k.id) withheld
            ++ (text " " ++ (parsed.normalized ++ text "\n"))
        → IsLine k s

  key_line-IsLine :
      (k : SshKey) (parsed : ParsedKey)
      → parse_public_key config.codec k.key ≡ ok parsed
      → IsLine k (key_line config k.id parsed)
  unfolding key_line
  key_line-IsLine k parsed e = line parsed e (simp append_assoc)

  -- A text that is the lines of these keys, one of each, in their order.
  abbrev pub AreLines : List SshKey → Str → Type 0
  AreLines [] s = s ≡ []
  AreLines (k ∷ ks) s = (l rest : Str) × IsLine k l × (s ≡ l ++ rest) × AreLines ks rest

  body_of-AreLines :
      (ks : List SshKey) (body : Str) → body_of config ks ≡ ok body → AreLines ks body
  unfolding body_of
  body_of-AreLines [] body h = ground arith
  body_of-AreLines (k ∷ ks) body h =
      split (parse_public_key config.codec k.key) (body_of config ks)
        (λ rest e. body_of-AreLines ks rest e) refl refl h
    where
      split :
          (p : Result ParsedKey) (r : Result Str)
          → ((rest : Str) → body_of config ks ≡ ok rest → AreLines ks rest)
          → parse_public_key config.codec k.key ≡ p
          → body_of config ks ≡ r
          → with_line config k.id p r ≡ ok body
          → AreLines (k ∷ ks) body
      split (err e) r tail a b c = cc
      split (ok parsed) (err e) tail a b c = cc
      split (ok parsed) (ok rest) tail a b c =
          let e : key_line config k.id parsed ++ rest ≡ body = ground arith in
          (key_line config k.id parsed, rest, key_line-IsLine k parsed a, sym e, tail rest b)

  -- The file is one line for each key of an active user, and nothing else.
  pub record IsListing (d : Db) (file : Str) : Type 0 where
    pub keys : List SshKey
    pub lines : AreLines keys file
    pub distinct : Distinct (λ (k : SshKey). k.id) keys
    pub served : (k : SshKey) → Memᴰ k keys → Memᴰ k d.ssh_keys × IsServed d k
    pub all : (k : SshKey) → Memᴰ k d.ssh_keys → IsServed d k → Memᴰ k keys

  AreLines-IsListing :
      (d : Db) (body : Str)
      → Distinct (λ (k : SshKey). k.id) d.ssh_keys
      → AreLines (active_keys d) body
      → IsListing d body
  AreLines-IsListing d body distinct l = record {
    keys = active_keys d;
    lines = l;
    distinct =
        Distinct-by_id (retain (has_active_user d) d.ssh_keys)
          (Distinct-retain (λ (k : SshKey). k.id) (has_active_user d) d.ssh_keys distinct);
    served = λ k m.
        let (n, t) = retain-Mem (has_active_user d) d.ssh_keys k (by_id-Mem k _ m) in
        (n, has_active_user-IsServed d k t);
    all = λ k m s.
        Mem-by_id k _
          (Mem-retain (has_active_user d) d.ssh_keys k m (IsServed-has_active_user d k s));
  }

  pub sync-db : (n : ℕ) (w v : World) → sync config w ≡ (ok n, v) → v.db ≡ w.db
  unfolding sync atomic_write write_file
  sync-db n w v h =
      let finish = λ (rows : List SshKey) (body : Str). atomic_write body >> pure (length rows) in
      let (rows, x, a, b) =
        bind-eq-ok (query active_keys) (λ rows. lift (body_of config rows) >>= finish rows) w h in
      let (body, y, c, d) = bind-eq-ok (lift (body_of config rows)) (finish rows) x b in
      let (read, kept) = query-eq-ok active_keys w x a in ground arith

  -- Where it succeeds the file lists the keys of the active users.
  pub sync-IsListing :
      (n : ℕ) (w v : World)
      → sync config w ≡ (ok n, v)
      → Distinct (λ (k : SshKey). k.id) w.db.ssh_keys
      → IsListing w.db v.authorized_keys
  unfolding sync atomic_write write_file
  sync-IsListing n w v h distinct =
      let finish = λ (rows : List SshKey) (body : Str). atomic_write body >> pure (length rows) in
      let (rows, x, a, b) =
        bind-eq-ok (query active_keys) (λ rows. lift (body_of config rows) >>= finish rows) w h in
      let (body, y, c, d) = bind-eq-ok (lift (body_of config rows)) (finish rows) x b in
      let (read, kept) = query-eq-ok active_keys w x a in
      let made : body_of config (active_keys w.db) ≡ ok body = ground arith in
      let written : v.authorized_keys ≡ body = ground arith in
      rw written
        (AreLines-IsListing w.db body distinct (body_of-AreLines (active_keys w.db) body made))
