-- ===== src/Auth/Identity/Presented.antt =====
-- The secrets that the headers of a request carry.
use rgit.Common.{
  ◌≡◌, refl, ap, Str, text, ◌++◌, false, none, some, List, [], ◌∷◌, inl, inr, Memᴰ, split,
  strip_prefix, contains, str_eq, str_eq_iff, trim, and_then, arith, Bool-cases, Option-cases,
  split_once-parts, strip_prefix-append_eq, ◌∙◌,
}
use rgit.Auth.Identity.{
  Crypto, Headers, raw_token, cookie_pair, pair_value, cookie_value, session_cookie,
}

-- `PRIVATE-TOKEN: raw`, or else `Authorization: Bearer raw`.
pub data Bears (h : Headers) (raw : Str) : Type 0 where
  private_token : h.private_token ≡ some raw → Bears h raw
  bearer : h.private_token ≡ none → h.authorization ≡ some (text "Bearer " ++ raw) → Bears h raw

-- `Authorization: Basic` with the encoding of `login:secret`.
pub record LogsIn (crypto : Crypto) (h : Headers) (login secret : Str) : Type 0 where
  pub encoded : Str
  pub header : h.authorization ≡ some (text "Basic " ++ encoded)
  pub decoded : crypto.decode_base64 encoded ≡ some (login ++ (b':' ∷ secret))
  pub no_colon : contains b':' login ≡ false

-- `Cookie: …; rgit_session=raw; …`
pub record SendsCookie (h : Headers) (raw : Str) : Type 0 where
  pub header : Str
  pub sent : h.cookie ≡ some header
  pub pair : Str
  pub part : Memᴰ pair (split b';' header)
  pub named : trim pair ≡ text "rgit_session" ++ (b'=' ∷ raw)

-- What is presented as a personal token.
pub data Presents (crypto : Crypto) (h : Headers) (raw : Str) : Type 0 where
  as_token : Bears h raw → Presents crypto h raw
  as_password : (login : Str) → LogsIn crypto h login raw → Presents crypto h raw

pub raw_token-Bears : (h : Headers) (raw : Str) → raw_token h ≡ some raw → Bears h raw
raw_token-Bears h raw e = elim (Option-cases h.private_token) [
  | inr (t, k) ↦ private_token (k ∙ ground arith)
  | inl k ↦ elim (Option-cases h.authorization) [
    | inl n ↦ absurd (ground arith)
    | inr (a, n) ↦
        bearer k (n ∙ ap some (strip_prefix-append_eq (text "Bearer ") a raw (ground arith)))
  ]
]

pub basic-header :
    (h : Headers) (encoded : Str)
    → and_then h.authorization (strip_prefix (text "Basic ")) ≡ some encoded
    → h.authorization ≡ some (text "Basic " ++ encoded)
basic-header h encoded e = elim (Option-cases h.authorization) [
  | inl n ↦ absurd (ground arith)
  | inr (a, n) ↦ n ∙ ap some (strip_prefix-append_eq (text "Basic ") a encoded (ground arith))
]

pair_value-part :
    (name raw : Str) (parts : List Str)
    → pair_value name parts ≡ some raw
    → (kv : Str) × Memᴰ kv parts × (trim kv ≡ name ++ (b'=' ∷ raw))
pair_value-part name raw [] e = cc
pair_value-part name raw (kv ∷ parts) e = elim (Option-cases (cookie_pair kv)) [
  | inl n ↦ let (kv', m, t) = pair_value-part name raw parts (ground arith) in (kv', Memᴰ.tail m, t)
  | inr ((k, v), n) ↦ elim (Bool-cases (str_eq k name)) [
    | inr f ↦
        let (kv', m, t) = pair_value-part name raw parts (ground arith) in (kv', Memᴰ.tail m, t)
    | inl t ↦
        let (whole, _) = split_once-parts (trim kv) b'=' (k, v) n in
        let same : k ≡ name = (str_eq_iff k name).0 t in
        let value : v ≡ raw = ground arith in
        (
          kv,
          Memᴰ.head refl,
          whole ∙ ap (λ q. q ++ (b'=' ∷ v)) same ∙ ap (λ q. name ++ (b'=' ∷ q)) value,
        )
  ]
]

pub cookie-SendsCookie :
    (h : Headers) (raw : Str) → cookie_value h.cookie session_cookie ≡ some raw → SendsCookie h raw
unfolding cookie_value
cookie-SendsCookie h raw e = elim (Option-cases h.cookie) [
  | inl n ↦ absurd (ground arith)
  | inr (c, n) ↦
      let (kv, m, t) = pair_value-part session_cookie raw (split b';' c) (ground arith) in
      record { header = c; sent = n; pair = kv; part = m; named = t }
]
