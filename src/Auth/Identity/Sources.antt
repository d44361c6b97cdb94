-- ===== src/Auth/Identity/Sources.antt =====
-- Where an identity comes from.
use rgit.Common.{
  ℕ, ◌≡◌, inl, inr, Str, text, Bool, ◌==◌, Option, some, ap, ◌∙◌, ◌++◌, split_once-parts,
  starts_with, split_once, strip_prefix, and_then, arith, Option-cases, Bool-cases,
}
use rgit.Result.{Result, ok}
use rgit.Store.{World}
use rgit.Throttle
use rgit.Auth.Token.{token_prefix, lfs_token_prefix}
use rgit.Auth.Identity.Vouched.{
  Authentic, as_nobody, pat-Authentic, lfs-Authentic, cookie-Authentic, password-Authentic,
  Authentic-swept,
}
use rgit.Auth.Identity.Presented.{
  LogsIn, as_token, as_password, raw_token-Bears, basic-header, cookie-SendsCookie,
}
use rgit.Auth.Identity.{
  Identity, Crypto, Headers, AuthConfig, authenticate_basic, identify, locked_out, raw_token,
  cookie_value, session_cookie, with_login, times_five,
}

module _ (crypto : Crypto) (victim : Throttle.Failures → Option Str) where
  pub locked_out-result :
      (key ip_key : Str) (max : ℕ) (w : World)
      → (b : Bool) × (m : Throttle.Failures) × (locked_out key ip_key max w
          ≡ (ok b, record w { failures = m }))
  unfolding locked_out
  locked_out-result key ip_key max w =
      let (b, m) = Throttle.check_lockout w.now key max w.failures in
      elim (Bool-cases b) [
        | inl t ↦ (b, m, ground arith)
        | inr f ↦
            let (b', m') = Throttle.check_lockout w.now ip_key (times_five max) m in
            (b', m', ground arith)
      ]

module _ (crypto : Crypto) (victim : Throttle.Failures → Option Str) (hs : Headers) where
  login-Authentic :
      (cfg : AuthConfig) (ip login secret : Str) (w v : World) (i : Identity)
      → LogsIn crypto hs login secret
      → with_login crypto victim cfg ip (some (login, secret)) w ≡ (ok i, v)
      → Authentic crypto hs w i
  login-Authentic cfg ip login secret w v i sent h =
      elim (Bool-cases (starts_with lfs_token_prefix secret)) [
        | inl t ↦ lfs-Authentic crypto victim hs login secret w v i sent (ground arith)
        | inr f ↦ elim (Bool-cases (starts_with token_prefix secret)) [
          | inl t ↦
              pat-Authentic crypto victim hs secret w v i (as_password login sent) (ground arith)
          | inr g ↦
              let key = Throttle.throttle_key login ip in
              let ip_key = Throttle.ip_throttle_key ip in
              let (b, m, e) = locked_out-result crypto victim key ip_key cfg.max_login_failures w in
              elim (Bool-cases b) [
                | inl t ↦ as_nobody (ground arith)
                | inr o ↦ Authentic-swept crypto victim hs w m i (
                    password-Authentic crypto victim hs cfg login secret key ip_key
                      (record w { failures = m }) v i sent (ground arith))
              ]
        ]
      ]

  basic-Authentic :
      (cfg : AuthConfig) (encoded ip : Str) (w v : World) (i : Identity)
      → hs.authorization ≡ some (text "Basic " ++ encoded)
      → authenticate_basic crypto victim cfg encoded ip w ≡ (ok i, v)
      → Authentic crypto hs w i
  unfolding authenticate_basic
  basic-Authentic cfg encoded ip w v i sent h = elim (Option-cases (crypto.decode_base64 encoded)) [
    | inl e ↦ absurd (ground arith)
    | inr (decoded, e) ↦ elim (Option-cases (split_once (λ c. c == b':') decoded)) [
      | inl e' ↦ as_nobody (ground arith)
      | inr ((login, secret), e') ↦
          let (whole, no_colon) = split_once-parts decoded b':' (login, secret) e' in
          let logs_in : LogsIn crypto hs login secret = record {
            encoded = encoded;
            header = sent;
            decoded = e ∙ ap some whole;
            no_colon = no_colon;
          } in
          login-Authentic cfg ip login secret w v i logs_in (ground arith)
    ]
  ]

  pub identify-Authentic :
      (cfg : AuthConfig) (ip : Str) (w v : World) (i : Identity)
      → identify crypto victim cfg hs ip w ≡ (ok i, v)
      → Authentic crypto hs w i
  unfolding identify
  identify-Authentic cfg ip w v i e = elim (Option-cases (raw_token hs)) [
    | inr (raw, t) ↦
        pat-Authentic crypto victim hs raw w v i (as_token (raw_token-Bears hs raw t))
          (ground arith)
    | inl n ↦ elim (Option-cases (and_then hs.authorization (strip_prefix (text "Basic ")))) [
      | inr (encoded, t) ↦
          basic-Authentic cfg encoded ip w v i (basic-header hs encoded t) (ground arith)
      | inl n' ↦
          cookie-Authentic crypto victim hs (cookie_value hs.cookie session_cookie) w v i
            (cookie-SendsCookie hs) (ground arith)
    ]
  ]
