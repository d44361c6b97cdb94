-- ===== src/Account/Tokens.antt =====
-- crates/rgit-http/src/handlers/api/tokens.rs, and the statements on `personal_access_tokens`. The date parser (to
-- the last second of the day) and the JSON of the scopes are arguments.
pub mod Issued
use rgit.Common.{
  ℕ, Str, text, Bool, true, false, not, ◌&&◌, ◌||◌, ◌==◌, Option, none, some, List, [], ◌∷◌, any,
  retain, map, length, str_eq, trim, is_empty, if◌then◌else◌,
}
use rgit.Error.{db, unique_violation, foreign_key_violation, not_found, invalid}
use rgit.Result.{Result, ok, err}
use rgit.Models.{User, PersonalAccessToken}
use rgit.Store.{Db, World, M, query, execute, pure, lift, check, ◌>>=◌, ◌>>◌}
use rgit.Tables.Groups.{next_id}
use rgit.Auth.Token.{Scope, generate_token}

-- INSERT INTO personal_access_tokens … RETURNING *: the digest is unique.
unfoldable pub insert_token : PersonalAccessToken → Db → Result (PersonalAccessToken × Db)
insert_token t d =
    if any (λ r. str_eq r.token_hash t.token_hash) d.tokens
    then err (db unique_violation)
    else if not (any (λ u. u.id == t.user_id) d.users)
    then err (db foreign_key_violation)
    else (let row = record t { id = next_id (λ (r : PersonalAccessToken). r.id) d.tokens } in
        ok (row, record d { tokens = row ∷ d.tokens }))

abbrev pub is_own_token : ℕ → ℕ → PersonalAccessToken → Bool
is_own_token id user_id t = t.id == id && t.user_id == user_id

-- UPDATE personal_access_tokens SET revoked = 1 WHERE id = ? AND user_id = ?, and how many rows it changed
unfoldable pub revoke_token : ℕ → ℕ → Db → Result (ℕ × Db)
revoke_token id user_id d = ok (
  length (retain (is_own_token id user_id) d.tokens),
  record d {
    tokens =
        map (λ t. if is_own_token id user_id t then record t { revoked = true } else t) d.tokens;
  },
)

-- `sorted` is the ORDER BY.
unfoldable pub list :
    (List PersonalAccessToken → List PersonalAccessToken) → User → M (List PersonalAccessToken)
list sorted user =
    query (λ d. sorted (retain (λ t. t.user_id == user.id && not t.revoked) d.tokens))

pub record CreateToken : Type 0 where
  pub name : Str
  pub scopes : List Scope
  pub expires_at : Option Str

pub record Formats : Type 0 where
  pub digest : Str → Str
  pub end_of_day : Str → Option ℕ
  pub print_scopes : List Scope → Str

abbrev pub is_none_left : List Scope → Bool
is_none_left [] = true
is_none_left (s ∷ ss) = false

module _ (formats : Formats) where
  abbrev pub parsed_date : Option ℕ → Result (Option ℕ)
  parsed_date none = err (invalid (text "expires_at must be YYYY-MM-DD"))
  parsed_date (some t) = ok (some t)

  abbrev pub expiry : Option Str → Result (Option ℕ)
  expiry none = ok none
  expiry (some s) = parsed_date (formats.end_of_day s)

  abbrev pub new_token : User → CreateToken → Option ℕ → Str → PersonalAccessToken
  new_token user req expires_at raw = record {
    id = 0;
    user_id = user.id;
    name = trim req.name;
    token_hash = formats.digest raw;
    scopes = formats.print_scopes req.scopes;
    expires_at = expires_at;
    last_used_at = none;
    revoked = false;
  }

  -- The row, and the text that is shown once.
  unfoldable pub create : User → CreateToken → M (PersonalAccessToken × Str)
  create user req =
      check (not (is_empty (trim req.name))) (invalid (text "token name is required"))
      >> (check (not (is_none_left req.scopes)) (invalid (text "at least one scope is required"))
          >> (lift (expiry req.expires_at) >>= (λ expires_at. generate_token >>= (λ raw.
              execute (insert_token (new_token user req expires_at raw))
              >>= (λ row. pure (row, raw))))))

unfoldable pub revoke : User → ℕ → M (Unit {0})
revoke user id =
    execute (revoke_token id user.id) >>= (λ affected. check (not (affected == 0)) not_found)
