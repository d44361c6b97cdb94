-- ===== src/Tests/Own.antt =====
-- A user's own keys, tokens, password and sessions on the small instance.
use rgit.Common.{
  ◌≡◌, ◌≢◌, refl, Str, text, true, false, Option, none, some, [], ◌∷◌, str_eq, nocase, trim,
  trim_start, trim_end, split_whitespace, words_from, byte_len,
}
use rgit.Result.{Result, ok}
use rgit.Models.{SshKey, PersonalAccessToken}
use rgit.Store.{World, query, execute, transaction}
use rgit.Throttle
use rgit.Auth.Token.{api, find_active_token, resolve_session, generate_token, create_session, draw}
use rgit.Auth.Token.Lookup.{new_session}
use rgit.Auth.Password.{
  Bcrypt, verify_password, verify_password_async, hash_password_async, check_password_policy,
}
use rgit.Auth.Identity.{Crypto, locked_out, check_lockout}
use rgit.Admin.{Passwords}
use rgit.AuthorizedKeys.{SshConfig, sync_if_enabled, sync, body_of, atomic_write, write_file}
use rgit.AuthorizedKeys.Listed.{IsListing}
use rgit.SshKey.{validate_key_blob, validate_ed25519, read_string, read_field, parse_public_key}
use rgit.Account.Keys.{CreateKey, insert_key, delete_key}
use rgit.Account.Keys
use rgit.Account.Keys.Registered.{Registered, create-Registered, delete-Revoked}
use rgit.Account.Tokens.{Formats, CreateToken, insert_token, revoke_token, revoke}
use rgit.Account.Tokens
use rgit.Account.Tokens.Issued.{find_active_token-create, find_active_token-revoke}
use rgit.Account.Profile.{ChangePassword, change_password}
use rgit.Account.Profile.Changed.{Changed, change_password-Changed}
use rgit.Account.Login.{LoginRequest, login, logout, cookie_of}
use rgit.Account.Login.Steps.{Verified}
use rgit.Account.Login.Verified.{login-Verified, resolve_session-login}
use rgit.Shell.Run.{Ran, completed, run}
use rgit.Tests.Data.{bob, bob_token, rows, world, config, oldest, crypto}
use rgit.Tests.Texts.{codec, parsed}
use rgit.Tests.Forced.{host, keyed}

abbrev sshd : SshConfig
sshd = record {
  enabled = true;
  shell_path = text "/bin/rgit-shell";
  shell_config = text "/etc/rgit.toml";
  codec = codec;
  decimal = λ n. n ∷ [];
}

abbrev request : CreateKey
request = record { title = text "laptop"; key = text "ssh-ed25519 AAAA me" }

abbrev registered : Result SshKey × World
registered = Keys.create sshd bob request world

abbrev new_bob_key : SshKey
new_bob_key = record {
  id = 1;
  user_id = 2;
  title = text "laptop";
  key = parsed.normalized;
  fingerprint_sha256 = parsed.fingerprint_sha256;
  last_used_at = none;
}

create-Registered_example :
    Registered sshd bob request new_bob_key rows registered.1.db
    × (true ≡ true → IsListing sshd registered.1.db registered.1.authorized_keys)
unfolding Keys.create insert_key sync_if_enabled sync body_of atomic_write write_file
    parse_public_key validate_key_blob validate_ed25519 read_string read_field split_whitespace
    words_from trim trim_start trim_end str_eq query execute
create-Registered_example =
    create-Registered sshd bob request new_bob_key world registered.1 refl tt

-- Without sshd there is no file to write.
abbrev no_sshd : SshConfig
no_sshd = record sshd { enabled = false }

abbrev deleted : World
deleted = (Keys.delete no_sshd bob 7 keyed).1

delete-Revoked_example :
    ((run host 7 (text "git-upload-pack 'team/demo.git'") deleted).1.started ≡ [])
    × ((r : Ran) → (run host 7 (text "git-upload-pack 'team/demo.git'") deleted).0 ≢ completed r)
unfolding Keys.delete delete_key sync_if_enabled execute
delete-Revoked_example =
    delete-Revoked no_sshd host bob 7 (text "git-upload-pack 'team/demo.git'") keyed deleted deleted
      refl (refl, tt) (λ k m e. m)

abbrev bcrypt : Bcrypt
bcrypt = record { hash = λ p n. some p; verify = λ p h. str_eq p h }

abbrev passwords : Passwords
passwords = record { bcrypt = bcrypt; cost = 12; min_length = 3; decimal = λ n. n ∷ [] }

abbrev new_password : ChangePassword
new_password = record { current_password = text "pb"; new_password = text "secret" }

abbrev changed : World
changed = (change_password passwords bob new_password world).1

change_password-Changed_example : Changed passwords bob new_password changed
unfolding change_password verify_password verify_password_async hash_password_async
    check_password_policy transaction execute str_eq byte_len
change_password-Changed_example =
    change_password-Changed passwords bob new_password world changed refl

abbrev formats : Formats
formats = record { digest = λ s. s; end_of_day = λ s. none; print_scopes = λ ss. text "a" }

abbrev wanted : CreateToken
wanted = record { name = text "ci"; scopes = api ∷ []; expires_at = none }

abbrev made_token : PersonalAccessToken
made_token = record bob_token { id = 2; token_hash = text "rgit_secret"; scopes = text "a" }

abbrev with_token : World
with_token = (Tokens.create formats bob wanted world).1

find_active_token-create_example :
    (find_active_token (λ s. s) (text "rgit_secret") (record with_token { now = 2000 })).0
    ≡ ok (some made_token)
unfolding Tokens.create insert_token generate_token draw execute str_eq trim trim_start trim_end
find_active_token-create_example =
    find_active_token-create formats bob wanted made_token (text "rgit_secret") 2000 world
      with_token refl (λ n. refl)

abbrev two_tokens : World
two_tokens = record world { db = record rows { tokens = made_token ∷ bob_token ∷ [] } }

abbrev revoked : World
revoked = (revoke bob 2 two_tokens).1

find_active_token-revoke_example : bob_token.id ≢ 2
unfolding revoke revoke_token find_active_token query execute str_eq
find_active_token-revoke_example =
    find_active_token-revoke (λ s. s) bob 2 (text "rgit_k") bob_token two_tokens revoked
      (find_active_token (λ s. s) (text "rgit_k") revoked).1 refl (refl, (refl, tt)) refl

abbrev login_crypto : Crypto
login_crypto = record crypto { bcrypt = bcrypt }

abbrev credentials : LoginRequest
credentials = record { login = text "BOB"; password = text "pb"; user_agent = none }

abbrev shown : Str
shown = cookie_of login_crypto oldest (λ n. n ∷ []) config (text "https://x") (text "secret")

abbrev inside : World
inside =
    (login login_crypto oldest (λ n. n ∷ []) config (text "https://x") (text "1.2.3.4") credentials
      world).1

login-Verified_example :
    (x : World) × Verified login_crypto oldest
      (λ n. n ∷ [])
      world
      x
      (text "1.2.3.4")
      config
      credentials
      bob
unfolding login locked_out check_lockout Throttle.check_lockout Throttle.get Throttle.remove
    Throttle.clear_failures verify_password verify_password_async create_session draw query execute
    nocase str_eq
login-Verified_example =
    login-Verified login_crypto oldest (λ n. n ∷ []) config (text "https://x") (text "1.2.3.4")
      (text "secret") shown credentials bob world inside refl

resolve_session-login_example :
    (resolve_session (λ s. s) (text "secret") (record inside { now = 2000 })).0
    ≡ ok (some (new_session (λ s. s) 1000 2 24 (some (text "1.2.3.4")) none (text "secret"), bob))
unfolding login locked_out check_lockout Throttle.check_lockout Throttle.get Throttle.remove
    Throttle.clear_failures verify_password verify_password_async create_session draw query execute
    nocase str_eq
resolve_session-login_example =
    resolve_session-login login_crypto oldest (λ n. n ∷ []) config (text "https://x")
      (text "1.2.3.4") (text "secret") shown credentials bob 2000 world inside refl (λ n. refl)
      (refl, (refl, tt))

abbrev cookie : Option Str
cookie = some (text "a=b; rgit_session=secret")

abbrev outside : World
outside = (logout login_crypto oldest (λ n. n ∷ []) (text "https://x") cookie inside).1

abbrev cleared : Str
cleared = text "rgit_session=; Path=/; HttpOnly; Secure; SameSite=Strict; Max-Age=0"
