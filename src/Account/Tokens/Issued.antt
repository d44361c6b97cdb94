-- ===== src/Account/Tokens/Issued.antt =====
-- What a personal token that was made, or revoked, authenticates.
use rgit.Common.{
  ℕ, ◌≡◌, ◌≢◌, refl, sym, subst, Str, true, false, not, ◌==◌, Option, none, some, List, [], ◌∷◌,
  any, find, find-Mem, map, retain, length, arith, text, is_empty, trim, Memᴰ, map-Mem, retain-Mem,
  str_eq, str_eq_refl, Bool-cases, inl, inr, if◌then◌else◌, &&-eq-true,
}
use rgit.Error.{invalid, not_found}
use rgit.Result.{ok}
use rgit.Models.{User, PersonalAccessToken}
use rgit.Store.{Db, World, query, execute, pure, lift, check, ◌>>=◌, ◌>>◌}
use rgit.Store.Calls.{Healthy, bind-eq-ok, execute-eq-ok}
use rgit.Tables.Keys.{Distinct, Distinct-eq}
use rgit.Auth.Token.{find_active_token, token_matches, not_expired, generate_token}
use rgit.Auth.Token.Lookup.{find-eq-none}
use rgit.Account.Tokens.{
  Formats, CreateToken, new_token, insert_token, revoke_token, is_own_token, create, revoke, expiry,
  is_none_left,
}

-- A list that is not empty has a row.
pub a_row {ℓ} : {A : Type ℓ} (rows : List A) → length rows == 0 ≡ false → (a : A) × Memᴰ a rows
a_row [] h = absurd (ground arith)
a_row (r ∷ rows) h = (r, Memᴰ.head refl)

module _ (formats : Formats) where
  -- The row that an insertion adds.
  record Added (raw : Str) (row : PersonalAccessToken) (d e : Db) : Type 0 where
    hash : row.token_hash ≡ formats.digest raw
    revoked : row.revoked ≡ false
    is_new : any (λ r. str_eq r.token_hash (formats.digest raw)) d.tokens ≡ false
    stored : e.tokens ≡ row ∷ d.tokens

  insert_token-Added :
      (user : User) (req : CreateToken) (expires_at : Option ℕ) (raw : Str)
      (row : PersonalAccessToken) (d e : Db)
      → insert_token (new_token formats user req expires_at raw) d ≡ ok (row, e)
      → Added raw row d e
  unfolding insert_token
  insert_token-Added user req expires_at raw row d e h = record {
    hash = ground arith;
    revoked = ground arith;
    is_new = ground arith;
    stored = ground arith;
  }

  create-Added :
      (user : User) (req : CreateToken) (row : PersonalAccessToken) (raw : Str) (w v : World)
      → create formats user req w ≡ (ok (row, raw), v)
      → (d : Db) × Added raw row d v.db
  unfolding create
  create-Added user req row raw w v h =
      let nameless = invalid (text "token name is required") in
      let scopeless = invalid (text "at least one scope is required") in
      let insert =
        λ (e : Option ℕ) (raw : Str). execute (insert_token (new_token formats user req e raw)) in
      let store = λ (e : Option ℕ) (raw : Str). insert e raw >>= (λ row. pure (row, raw)) in
      let made = λ (e : Option ℕ). generate_token >>= store e in
      let dated = lift (expiry formats req.expires_at) >>= made in
      let (_, x, a, b) =
        bind-eq-ok (check (not (is_empty (trim req.name))) nameless)
          (λ _. check (not (is_none_left req.scopes)) scopeless >> dated) w h in
      let (_, y, c, d) =
        bind-eq-ok (check (not (is_none_left req.scopes)) scopeless) (λ _. dated) x b in
      let (e, z, f, g) = bind-eq-ok (lift (expiry formats req.expires_at)) made y d in
      let (raw', u, i, j) = bind-eq-ok generate_token (store e) z g in
      let (row', t, k, l) = bind-eq-ok (insert e raw') (λ row. pure (row, raw')) u j in
      let (inserted, _, _) =
        execute-eq-ok (insert_token (new_token formats user req e raw')) u t k in
      let same_raw : raw' ≡ raw = ground arith in
      let same_row : row' ≡ row = ground arith in
      let end : t ≡ v = ground arith in
      (
        u.db,
        subst (λ q. Added raw row u.db q.db) end
            (subst (λ r. Added r row u.db t.db) same_raw
              (subst (λ r. Added raw' r u.db t.db) same_row
                (insert_token-Added user req e raw' row' u.db t.db inserted))),
      )

  -- With a database that answers: a token that was made is found by its text at every later time until it expires,
  -- and not from then on.
  pub find_active_token-create :
      (user : User) (req : CreateToken) (row : PersonalAccessToken) (raw : Str) (later : ℕ)
      (w v : World)
      → create formats user req w ≡ (ok (row, raw), v)
      → Healthy v
      → (find_active_token formats.digest raw (record v { now = later })).0
        ≡ ok (if not_expired later row.expires_at then some row else none)
  unfolding find_active_token query
  find_active_token-create user req row raw later w v h healthy =
      let (d, added) = create-Added user req row raw w v h in
      let stored : v.db.tokens ≡ row ∷ d.tokens = added.stored in
      ground (
        arith,
        healthy v.calls,
        added.hash,
        added.revoked,
        str_eq_refl (formats.digest raw),
        find-eq-none (token_matches formats.digest later raw)
            (λ (r : PersonalAccessToken). str_eq r.token_hash (formats.digest raw))
            (λ r m. (&&-eq-true _ _ (&&-eq-true _ _ m).0).0) d.tokens added.is_new,
      )

found_in :
    (digest : Str → Str) (raw : Str) (t : PersonalAccessToken) (v x : World)
    → find_active_token digest raw v ≡ (ok (some t), x)
    → Memᴰ t v.db.tokens × (t.revoked ≡ false)
unfolding find_active_token query
found_in digest raw t v x f =
    let e : find (token_matches digest v.now raw) v.db.tokens ≡ some t = ground arith in
    let (m, live) = find-Mem (token_matches digest v.now raw) v.db.tokens t e in (m, ground arith)

-- The rows after the update come from rows of the same ids, and the user's own row of the id is revoked.
revoked_of :
    (id user_id n : ℕ) (d e : Db) (t : PersonalAccessToken)
    → revoke_token id user_id d ≡ ok (n, e)
    → Memᴰ t e.tokens
    → (o : PersonalAccessToken) × Memᴰ o d.tokens
      × (t ≡ (if is_own_token id user_id o then record o { revoked = true } else o))
unfolding revoke_token
revoked_of id user_id n d e t h m =
    let rows : e.tokens
        ≡ map (λ t. if is_own_token id user_id t then record t { revoked = true } else t) d.tokens =
      ground arith in
    map-Mem (λ t. if is_own_token id user_id t then record t { revoked = true } else t) d.tokens t
      (subst (λ ts. Memᴰ t ts) rows m)

own_row :
    (id user_id n : ℕ) (d e : Db)
    → revoke_token id user_id d ≡ ok (n, e)
    → n == 0 ≡ false
    → (o : PersonalAccessToken) × Memᴰ o d.tokens × (is_own_token id user_id o ≡ true)
unfolding revoke_token
own_row id user_id n d e h z =
    let (o, m) = a_row (retain (is_own_token id user_id) d.tokens) (ground arith) in
    let (k, t) = retain-Mem (is_own_token id user_id) d.tokens o m in (o, k, t)

not_live :
    (id user_id : ℕ) (t o p : PersonalAccessToken)
    → t ≡ (if is_own_token id user_id o then record o { revoked = true } else o)
    → is_own_token id user_id p ≡ true
    → t.revoked ≡ false
    → t.id ≡ id
    → (o.id ≡ p.id → o ≡ p)
    → ⊥
not_live id user_id t o p s own live e unique = elim (Bool-cases (is_own_token id user_id o)) [
  | inl y ↦ absurd (ground arith)
  | inr f ↦
      let same : t ≡ o = ground arith in
      let ids : o.id ≡ p.id = ground arith in let one : o ≡ p = unique ids in absurd (ground arith)
]

-- A token that its user has revoked is found by no text.
pub find_active_token-revoke :
    (digest : Str → Str) (user : User) (id : ℕ) (raw : Str) (t : PersonalAccessToken)
    (w v x : World)
    → revoke user id w ≡ (ok tt, v)
    → Distinct (λ (r : PersonalAccessToken). r.id) w.db.tokens
    → find_active_token digest raw v ≡ (ok (some t), x)
    → t.id ≢ id
unfolding revoke
find_active_token-revoke digest user id raw t w v x h d f e =
    let (n, y, a, b) =
      bind-eq-ok (execute (revoke_token id user.id))
        (λ affected. check (not (affected == 0)) not_found) w h in
    let (changed, _, _) = execute-eq-ok (revoke_token id user.id) w y a in
    let end : y ≡ v = ground arith in
    let nonzero : n == 0 ≡ false = ground arith in
    let (mem, live) = found_in digest raw t v x f in
    let (o, m, s) =
      revoked_of id user.id n w.db y.db t changed
        (subst (λ (q : World). Memᴰ t q.db.tokens) (sym end) mem) in
    let (p, k, own) = own_row id user.id n w.db y.db changed nonzero in
    not_live id user.id t o p s own live e
      (λ same. Distinct-eq (λ (r : PersonalAccessToken). r.id) w.db.tokens o p d m k same)
