-- ===== src/Auth/Identity/Guard.antt =====
-- What the guard of the REST routes lets through.
use rgit.Common.{
  ℕ, ◌≡◌, refl, ◌≢◌, ◌⊎◌, ◌↔◌, Str, text, Bool, true, false, Option, none, some, str_eq_iff,
  Option-cases, inl, inr, arith, if◌then◌else◌,
}
use rgit.Error.{unauthorized, forbidden}
use rgit.Result.{ok, err}
use rgit.Models.{User}
use rgit.Auth.Token.{api, read_api}
use rgit.Auth.Identity.{
  AuthMethod, session, basic, token, lfs_token, Identity, allows, Method, mutating, api_guard,
  guard_method, method_allows, require_user, require_admin,
}

-- A mutating request of a session goes on exactly if it carries the header `X-Rgit-Csrf: 1`.
pub api_guard-session_iff :
    (m : Method) (csrf : Option Str) (i : Identity)
    → i.method ≡ some session
    → mutating m ≡ true
    → (api_guard m csrf i ≡ true) ↔ (csrf ≡ some (text "1"))
unfolding api_guard
api_guard-session_iff m none i s h = ground arith
api_guard-session_iff m (some v) i s h = ground (arith, str_eq_iff v (text "1"))

-- For a session, Basic or token caller the guard agrees with the scopes that the identity allows:
-- what goes on is allowed `api` if it mutates and `read_api` if not.
pub api_guard-allows :
    (m : Method) (csrf : Option Str) (i : Identity)
    → ((p : ℕ) (can_write : Bool) → i.method ≢ some (lfs_token p can_write))
    → i.method ≢ none
    → api_guard m csrf i ≡ true
    → allows i (if mutating m then api else read_api) ≡ true
unfolding api_guard allows
api_guard-allows m csrf i n q h = go i.method n q h
  where
    go :
        (o : Option AuthMethod)
        → ((p : ℕ) (can_write : Bool) → o ≢ some (lfs_token p can_write))
        → o ≢ none
        → guard_method (mutating m) csrf o ≡ true
        → method_allows o (if mutating m then api else read_api) ≡ true
    go none n q h = absurd (q refl)
    go (some session) n q h = refl
    go (some basic) n q h = refl
    go (some (token scopes)) n q h = h
    go (some (lfs_token p c)) n q h = absurd (n p c refl)

-- A caller with an LFS credential passes the guard with every method, although its credential
-- allows neither scope of the REST API.
pub api_guard-lfs_token :
    (m : Method) (csrf : Option Str) (i : Identity) (p : ℕ) (can_write : Bool)
    → i.method ≡ some (lfs_token p can_write)
    → (api_guard m csrf i ≡ true) × (allows i api ≡ false) × (allows i read_api ≡ false)
unfolding api_guard allows
api_guard-lfs_token m csrf i p can_write h = ground arith

-- The admin routes are open to admins, answer 401 to nobody, and 403 to any other user.
pub require_admin_cases :
    (i : Identity)
    → ((i.user ≡ none) × (require_admin i ≡ err unauthorized))
      ⊎ ((u : User) × (i.user ≡ some u)
          × (require_admin i ≡ (if u.is_admin then ok u else err forbidden)))
unfolding require_admin require_user
require_admin_cases i = elim (Option-cases i.user) [
  | inl e ↦ inl (e, ground arith)
  | inr (u, e) ↦ inr (u, e, ground arith)
]
