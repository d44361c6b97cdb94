-- ===== src/Auth/Token/Lookup.antt =====
-- When a credential that was issued is accepted.
use rgit.Common.{
  ℕ, suc, ◌+◌, ◌*◌, ◌≡◌, refl, Str, Bool, true, false, not, ltb, List, [], ◌∷◌, Option, none, some,
  any, find, retain, str_eq, str_eq_iff, str_eq_refl, if◌then◌else◌, arith, find_sound, &&-eq-true,
}
use rgit.Result.{ok}
use rgit.Models.{User, Session, PersonalAccessToken}
use rgit.Store.{World, query, execute}
use rgit.Store.Calls.{Healthy}
use rgit.Auth.Token.{
  create_session, resolve_session, destroy_session, find_active_token, active_user, session_matches,
  token_matches, not_expired,
}

-- No row that another test, which the one implies, rejects.
pub find-eq-none {ℓ} :
    {A : Type ℓ} (p q : A → Bool)
    → ((a : A) → p a ≡ true → q a ≡ true)
    → (rows : List A) → any q rows ≡ false
    → find p rows ≡ none
find-eq-none p q h [] e = refl
find-eq-none p q h (a ∷ rows) e = ground (arith, h a, find-eq-none p q h rows)

find-retained :
    (digest : Str → Str) (t : ℕ) (raw : Str) (rows : List Session)
    → find (session_matches digest t raw) (retain (λ s. not (str_eq s.id (digest raw))) rows) ≡ none
find-retained digest t raw [] = refl
find-retained digest t raw (s ∷ rows) = ground (arith, find-retained digest t raw rows)

module _ (digest : Str → Str) where
  abbrev pub new_session : ℕ → ℕ → ℕ → Option Str → Option Str → Str → Session
  new_session t user_id ttl_hours ip user_agent raw = record {
    id = digest raw;
    user_id = user_id;
    created_at = t;
    expires_at = t + ttl_hours * 3600;
    last_seen_at = none;
    ip = ip;
    user_agent = user_agent;
  }

  -- A cookie that was just issued names its session and the active user it was issued to, at every
  -- later time until the session's end, and nobody from then on.
  pub resolve-create_session :
      (user_id ttl_hours later : ℕ) (ip user_agent : Option Str) (w v : World) (raw : Str)
      (u : User)
      → create_session digest user_id ttl_hours ip user_agent w ≡ (ok raw, v)
      → Healthy w
      → active_user user_id w.db ≡ some u
      → (resolve_session digest raw (record v { now = later })).0
        ≡ ok (
            if ltb later (w.now + ttl_hours * 3600)
            then some (new_session w.now user_id ttl_hours ip user_agent raw, u)
            else none)
  unfolding create_session resolve_session query execute
  resolve-create_session user_id ttl_hours later ip user_agent w v raw u h healthy a = ground (
    arith,
    healthy w.calls,
    healthy (suc w.calls),
    healthy (suc (suc w.calls)),
    healthy (suc (suc (suc w.calls))),
    str_eq_refl (digest raw),
    find-eq-none (session_matches digest later raw) (λ (s : Session). str_eq s.id (digest raw))
        (λ (s : Session) m. (&&-eq-true _ _ m).0) w.db.sessions,
  )

  -- A cookie whose session was destroyed names nobody.
  pub resolve-destroy_session :
      (raw : Str) (w v : World)
      → destroy_session digest raw w ≡ (ok tt, v)
      → Healthy w
      → (resolve_session digest raw v).0 ≡ ok none
  unfolding destroy_session resolve_session query execute
  resolve-destroy_session raw w v h healthy =
      ground (
        arith,
        healthy w.calls,
        healthy (suc w.calls),
        find-retained digest w.now raw w.db.sessions,
      )

  -- A token that is found is one with the digest of the text presented, neither revoked nor expired.
  pub find_active_token_sound :
      (raw : Str) (w v : World) (t : PersonalAccessToken)
      → find_active_token digest raw w ≡ (ok (some t), v)
      → (t.token_hash ≡ digest raw) × (t.revoked ≡ false) × (not_expired w.now t.expires_at ≡ true)
  unfolding find_active_token query
  find_active_token_sound raw w v t h = ground (
    arith,
    find_sound (token_matches digest w.now raw) w.db.tokens {a = t},
    str_eq_iff t.token_hash (digest raw),
  )
