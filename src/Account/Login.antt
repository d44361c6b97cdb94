-- ===== src/Account/Login.antt =====
-- `login`, `logout` and `client_ip` of crates/rgit-http/src/handlers/api/session.rs. The parser of addresses is an
-- argument; an address is its text, and whether it is a loopback address.
pub mod Steps
pub mod Verified
use rgit.Common.{
  ℕ, ◌*◌, Str, text, ◌++◌, Bool, true, false, not, ◌&&◌, ◌||◌, ◌==◌, Option, none, some, List, [],
  ◌∷◌, and_then, find, head?, map, nocase, split, starts_with, str_eq, trim, is_some, if◌then◌else◌,
}
use rgit.Error.{unauthorized}
use rgit.Result.{ok}
use rgit.Models.{User, is_active}
use rgit.Store.{Db, World, M, query, pure, fail, ◌>>=◌, ◌>>◌}
use rgit.Throttle
use rgit.Auth.Token.{create_session, destroy_session}
use rgit.Auth.Password.{verify_password_async}
use rgit.Auth.Identity.{
  Crypto, AuthConfig, locked_out, record_failures, dummy_hash, cookie_value, session_cookie,
}

pub record Address : Type 0 where
  pub shown : Str
  pub is_loopback : Bool

-- X-Real-IP, or else the first part of X-Forwarded-For
abbrev pub candidate : Option Str → Option Str → Option Str
candidate (some real) forwarded = some (trim real)
candidate none forwarded =
    and_then (and_then forwarded (λ v. head? (split b',' v))) (λ s. some (trim s))

abbrev pub shown_or_unknown : Option Address → Str
shown_or_unknown none = text "unknown"
shown_or_unknown (some a) = a.shown

abbrev pub from_loopback : Option Address → Bool
from_loopback none = false
from_loopback (some a) = a.is_loopback

unfoldable pub client_ip :
    (Str → Option Address) → Bool → Option Address → (real forwarded : Option Str) → Str
client_ip parse trust_forwarded peer real forwarded =
    if trust_forwarded && from_loopback peer
    then elim (and_then (candidate real forwarded) parse) [
      | none ↦ shown_or_unknown peer
      | some a ↦ a.shown
    ]
    else shown_or_unknown peer

pub record LoginRequest : Type 0 where
  pub login : Str
  pub password : Str
  pub user_agent : Option Str

-- Status 429, or the cookie and the user.
pub data LoginAnswer : Type 0 where
  rate_limited : LoginAnswer
  logged_in : (raw cookie : Str) → User → LoginAnswer

-- SELECT * FROM users WHERE (username = ?1 OR email = ?1) AND state = 'active'
abbrev pub login_matches : Str → User → Bool
login_matches login u = (nocase u.username login || nocase u.email login) && is_active u

abbrev pub hash_or_dummy : Option User → Str
hash_or_dummy none = dummy_hash
hash_or_dummy (some u) = u.password_hash

module _ (crypto : Crypto) (victim : Throttle.Failures → Option Str) (decimal : ℕ → Str) where
  abbrev pub secure_flag : Str → Str
  secure_flag external_url =
      if starts_with (text "https://") external_url then text "; Secure" else text ""

  abbrev pub cookie_of : AuthConfig → Str → Str → Str
  cookie_of cfg external_url raw =
      session_cookie
      ++ (text "="
          ++ (raw
              ++ (text "; Path=/; HttpOnly"
                  ++ (secure_flag external_url
                      ++ (text "; SameSite=Strict; Max-Age="
                          ++ decimal (cfg.session_ttl_hours * 3600))))))

  abbrev pub clear_keys : Str → Str → M (Unit {0})
  clear_keys key ip_key w = (
    ok tt,
    record w { failures = Throttle.clear_failures ip_key (Throttle.clear_failures key w.failures) },
  )

  abbrev pub admitted : AuthConfig → Str → Str → LoginRequest → Option User → Bool → M LoginAnswer
  admitted cfg external_url ip req (some user) true =
      clear_keys (Throttle.throttle_key req.login ip) (Throttle.ip_throttle_key ip)
      >> (create_session crypto.digest user.id cfg.session_ttl_hours (some ip) req.user_agent
          >>= (λ raw. pure (logged_in raw (cookie_of cfg external_url raw) user)))
  admitted cfg external_url ip req _ _ =
      record_failures crypto victim (Throttle.throttle_key req.login ip)
        (Throttle.ip_throttle_key ip) (cfg.lockout_minutes * 60)
      >> fail unauthorized

  abbrev pub checked : AuthConfig → Str → Str → LoginRequest → Bool → M LoginAnswer
  checked cfg external_url ip req true = pure rate_limited
  checked cfg external_url ip req false =
      query (λ d. find (login_matches req.login) d.users) >>= (λ user.
        verify_password_async crypto.bcrypt req.password (hash_or_dummy user)
        >>= (λ verified. admitted cfg external_url ip req user verified))

  unfoldable pub login : AuthConfig → Str → Str → LoginRequest → M LoginAnswer
  login cfg external_url ip req =
      locked_out (Throttle.throttle_key req.login ip) (Throttle.ip_throttle_key ip)
        cfg.max_login_failures
      >>= checked cfg external_url ip req

  abbrev pub destroyed : Option Str → M (Unit {0})
  destroyed none = pure tt
  destroyed (some raw) = destroy_session crypto.digest raw

  -- The text of the header that clears the cookie.
  unfoldable pub logout : Str → Option Str → M Str
  logout external_url cookie =
      destroyed (cookie_value cookie session_cookie)
      >> pure (
          session_cookie
          ++ (text "=; Path=/; HttpOnly"
              ++ (secure_flag external_url ++ text "; SameSite=Strict; Max-Age=0")))
