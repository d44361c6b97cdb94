-- ===== src/SshKey/Lines.antt =====
-- A key that is accepted fits in one line of the authorized_keys file.
use rgit.Common.{
  Mem-of_any, All-Mem, ℕ, ◌≡◌, refl, subst, sym, Str, text, ◌++◌, Bool, true, false, ◌||◌, ◌==◌,
  Option, none, some, List, [], ◌∷◌, any, length, contains, str_eq, str_eq_iff, trim,
  split_whitespace, arith,
}
use rgit.Error.{Error, invalid}
use rgit.Result.{ok, bind-eq-ok, ensure}
use rgit.SshKey.{
  ParsedKey, Codec, read_string, validate_key_blob, join, parse_blob, parse_decoded, parse_parts,
  parse_public_key,
}

abbrev pub accepted : List Str
accepted =
    text "ssh-ed25519"
    ∷ text "ssh-rsa"
    ∷ text "ecdsa-sha2-nistp256"
    ∷ text "ecdsa-sha2-nistp384"
    ∷ text "ecdsa-sha2-nistp521"
    ∷ text "sk-ssh-ed25519@openssh.com"
    ∷ text "sk-ecdsa-sha2-nistp256@openssh.com"
    ∷ []

validate_key_blob-accepted :
    (utf8 : List ℕ → Option Str) (algorithm : Str) (blob : List ℕ) (cursor end : ℕ)
    → validate_key_blob utf8 algorithm blob cursor ≡ ok end
    → any (str_eq algorithm) accepted ≡ true
unfolding validate_key_blob
validate_key_blob-accepted utf8 algorithm blob cursor end h = ground arith

any-append : (p : ℕ → Bool) (s t : Str) → any p (s ++ t) ≡ (any p s || any p t)
any-append p [] t = refl
any-append p (c ∷ s) t = ground (arith, any-append p s t)

abbrev mismatch : Error
mismatch = invalid (text "SSH public key algorithm does not match key data")

abbrev trailing : Error
trailing = invalid (text "SSH public key contains trailing data")

abbrev pub OneLine : Str → Type 0
OneLine s = contains 10 s ≡ false

accepted-OneLine : (a : Str) → any (str_eq a) accepted ≡ true → OneLine a
accepted-OneLine a h =
    let (k, mem, t) = Mem-of_any (str_eq a) accepted h in
    let e : a ≡ k = (str_eq_iff a k).0 t in
    subst OneLine (sym e)
      (All-Mem OneLine accepted k (refl, (refl, (refl, (refl, (refl, (refl, (refl, tt))))))) mem)

module _ (codec : Codec) (encoded : (blob : List ℕ) → OneLine (codec.encode blob)) where
  -- The algorithm is an accepted one, the normalized key is one line, and it is made of the
  -- algorithm and the encoding of the blob that the fingerprint is taken of.
  abbrev pub Canonical : List ℕ → ParsedKey → Type 0
  Canonical blob key =
      (any (str_eq key.algorithm) accepted ≡ true)
      × OneLine key.normalized
      × (key.normalized ≡ key.algorithm ++ text " " ++ codec.encode blob)
      × (key.fingerprint_sha256 ≡ codec.fingerprint blob)

  abbrev made : Str → Str → List ℕ → ParsedKey
  made algorithm comment blob = record {
    normalized = algorithm ++ text " " ++ codec.encode blob;
    fingerprint_sha256 = codec.fingerprint blob;
    algorithm = algorithm;
    comment = comment;
  }

  made-Canonical :
      (algorithm comment : Str) (blob : List ℕ)
      → any (str_eq algorithm) accepted ≡ true
      → Canonical blob (made algorithm comment blob)
  made-Canonical algorithm comment blob h =
      let a = accepted-OneLine algorithm h in
      let e = encoded blob in
      let s = any-append (λ d. d == 10) (algorithm ++ text " ") (codec.encode blob) in
      let t = any-append (λ d. d == 10) algorithm (text " ") in (h, ground arith, refl, refl)

  parse_blob-Canonical :
      (algorithm comment : Str) (blob : List ℕ) (key : ParsedKey)
      → parse_blob codec algorithm comment blob ≡ ok key
      → Canonical blob key
  parse_blob-Canonical algorithm comment blob key h =
      let (wire, _, h1) = bind-eq-ok (read_string codec.utf8 blob 0 (text "algorithm")) _ h in
      let (_, _, h2) = bind-eq-ok (ensure (str_eq wire.0 algorithm) mismatch) _ h1 in
      let (cursor, v, h3) = bind-eq-ok (validate_key_blob codec.utf8 algorithm blob wire.1) _ h2 in
      let (_, _, h4) = bind-eq-ok (ensure (cursor == length blob) trailing) _ h3 in
      let e : made algorithm comment blob ≡ key = cc in
      subst (Canonical blob) e (
        made-Canonical algorithm comment blob
          (validate_key_blob-accepted codec.utf8 algorithm blob wire.1 cursor v))

  decoded-Canonical :
      (algorithm comment : Str) (blob : Option (List ℕ)) (key : ParsedKey)
      → parse_decoded codec algorithm comment blob ≡ ok key
      → (b : List ℕ) × Canonical b key
  decoded-Canonical algorithm comment none key h = cc
  decoded-Canonical algorithm comment (some blob) key h =
      (blob, parse_blob-Canonical algorithm comment blob key h)

  parts-Canonical :
      (parts : List Str) (key : ParsedKey)
      → parse_parts codec parts ≡ ok key
      → (b : List ℕ) × Canonical b key
  parts-Canonical [] key h = cc
  parts-Canonical (a ∷ []) key h = cc
  parts-Canonical (a ∷ e ∷ comment) key h =
      decoded-Canonical a (join comment) (codec.decode e) key h

  -- Where base64 writes no line feed: a key that is accepted has an accepted algorithm, and its
  -- normalized form is that algorithm, a space and the base64 of the blob that the fingerprint is taken
  -- of, without a line feed.
  pub parse_public_key-Canonical :
      (input : Str) (key : ParsedKey)
      → parse_public_key codec input ≡ ok key
      → (b : List ℕ) × Canonical b key
  unfolding parse_public_key
  parse_public_key-Canonical input key h =
      parts-Canonical (split_whitespace (trim input)) key (ground arith)
