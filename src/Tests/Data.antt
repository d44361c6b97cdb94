-- ===== src/Tests/Data.antt =====
-- A small instance that the tests run on.
use rgit.Common.{Str, text, true, false, Option, none, some, [], ◌∷◌, pos}
use rgit.Models.{User, Namespace, Project, GroupMember, PersonalAccessToken, active}
use rgit.Store.{Db, World}
use rgit.Auth.Password.{Bcrypt}
use rgit.Auth.Identity.{Crypto, AuthConfig, Headers}
use rgit.Auth.Token.{read_repository, write_repository}
use rgit.Throttle.{Failures}

abbrev pub alice : User
alice = record {
  id = 1;
  username = text "alice";
  email = text "a@x";
  name = text "A";
  password_hash = text "pa";
  is_admin = true;
  state = active;
  updated_at = 0;
}

abbrev pub bob : User
bob = record {
  id = 2;
  username = text "bob";
  email = text "b@x";
  name = text "B";
  password_hash = text "pb";
  is_admin = false;
  state = active;
  updated_at = 0;
}

abbrev pub team : Namespace
team = record {
  id = 10;
  path = text "team";
  name = text "Team";
  kind = text "group";
  owner_user_id = none;
  description = [];
  updated_at = 0;
}

abbrev pub demo : Project
demo = record {
  id = 5;
  namespace_id = 10;
  path = text "demo";
  name = text "Demo";
  description = [];
  visibility = pos 0;
  default_branch = none;
  archived = false;
  lfs_enabled = true;
  disk_id = 7;
  disk_hash = text "h7";
  forked_from_project_id = none;
  updated_at = 0;
}

abbrev pub alice_owns : GroupMember
alice_owns = record { namespace_id = 10; user_id = 1; access_level = pos 50 }

abbrev pub bob_maintains : GroupMember
bob_maintains = record { namespace_id = 10; user_id = 2; access_level = pos 40 }

abbrev pub bob_token : PersonalAccessToken
bob_token = record {
  id = 1;
  user_id = 2;
  name = text "ci";
  token_hash = text "rgit_k";
  scopes = text "rw";
  expires_at = none;
  last_used_at = none;
  revoked = false;
}

abbrev pub rows : Db
rows = record {
  users = alice ∷ bob ∷ [];
  namespaces = team ∷ [];
  projects = demo ∷ [];
  project_members = [];
  group_members = alice_owns ∷ bob_maintains ∷ [];
  ssh_keys = [];
  tokens = bob_token ∷ [];
  sessions = [];
  lfs_objects = [];
  project_lfs_objects = [];
  lfs_auth_tokens = [];
  disk_ids = [];
}

abbrev pub world : World
world = record {
  db = rows;
  now = 1000;
  fails = λ n. false;
  calls = 0;
  failures = [];
  secrets = λ n. text "secret";
  drawn = 0;
  repos = [];
  git_busy = false;
  lfs_files = [];
  authorized_keys = [];
  started = [];
}

abbrev pub bcrypt : Bcrypt
bcrypt = record { hash = λ p n. some p; verify = λ p h. false }

abbrev pub crypto : Crypto
crypto = record {
  digest = λ s. s;
  bcrypt = bcrypt;
  decode_base64 = λ s. some s;
  parse_scopes = λ s. some (read_repository ∷ write_repository ∷ []);
}

abbrev pub config : AuthConfig
config = record {
  session_ttl_hours = 24;
  bcrypt_cost = 12;
  min_password_length = 8;
  max_login_failures = 3;
  lockout_minutes = 15;
}

abbrev pub token_headers : Headers
token_headers = record {
  private_token = some (text "rgit_k");
  authorization = none;
  cookie = none;
  csrf = none;
}

abbrev pub oldest : Failures → Option Str
oldest [] = none
oldest (e ∷ m) = some e.key
