-- ===== src/Tests/Forced.antt =====
-- Forced commands of an SSH key on the small instance.
use rgit.Common.{
  ◌≡◌, refl, Str, text, true, false, none, some, [], ◌∷◌, pos, contains, Memᴰ, arith, str_eq,
  nocase, strip_suffix, strip_prefix, split_once, trim, trim_start, trim_end,
}
use rgit.Result.{ok}
use rgit.Perm.{required_level, level_from_i32, visibility_from_i32}
use rgit.Models.{User, SshKey}
use rgit.Store.{World, query, execute}
use rgit.Auth.Authorize.{authorize_repo, effective_access_level, effective_level, sql_max}
use rgit.Auth.Token.{issue_lfs_token, draw}
use rgit.Auth.Identity.{resolve_identity}
use rgit.Protocol.{upload_pack, from_wire}
use rgit.Lfs.Objects.{trim_end_matches}
use rgit.Repo.Head.{Git}
use rgit.Shell.{
  git, parse_command, parse_repository_path, split_lfs_arguments, unquote_single_argument,
  repo_action,
}
use rgit.Shell.Run.{Host, LfsGrant, run, find_project, owns_key}
use rgit.Shell.Run.Presented.{presenting, lfs_caller, resolve_identity-lfs_grant}
use rgit.Tests.Data.{demo, rows, world, crypto, config, oldest}

abbrev small_git : Git
small_git = record { Repository = Unit {0}; run = λ arguments r. (ok [], r); decode = λ s. s }

abbrev pub host : Host
host = record {
  naming = record { digest = λ s. s; decimal = λ n. n ∷ [] };
  lfs_enabled = true;
  external_url = text "http://x/";
  encode_base64 = λ s. s;
  exit_code = λ service p. some (pos 0);
  git = small_git;
  pushed = λ p. tt;
}

abbrev pub bob_key : SshKey
bob_key = record {
  id = 7;
  user_id = 2;
  title = text "laptop";
  key = text "k";
  fingerprint_sha256 = text "f";
  last_used_at = none;
}

abbrev pub keyed : World
keyed = record world { db = record rows { ssh_keys = bob_key ∷ [] } }

abbrev fetched : World
fetched = (run host 7 (text "git-upload-pack 'team/demo.git'") keyed).1

-- The service was started.
fetched-started : fetched.started ≡ (upload_pack, demo) ∷ []
unfolding run parse_command parse_repository_path unquote_single_argument split_once trim trim_start
    trim_end strip_suffix strip_prefix from_wire find_project query execute authorize_repo
    effective_access_level effective_level sql_max required_level level_from_i32 visibility_from_i32
    str_eq nocase repo_action
fetched-started = refl

abbrev command : Str
command = text "git-lfs-authenticate 'team/demo.git' download"

abbrev granted : World
granted = (run host 7 command keyed).1

abbrev grant : LfsGrant
grant = record {
  authorization = text "Basic bob:rgit_lfs_secret";
  href = text "http://x/team/demo.git/info/lfs";
  expires_in = 3600;
}

no_colon : (u : User) → Memᴰ u rows.users → contains b':' u.username ≡ false
no_colon u (Memᴰ.head e) = ground arith
no_colon u (Memᴰ.tail (Memᴰ.head e)) = ground arith
no_colon u (Memᴰ.tail (Memᴰ.tail m)) = elim m [ ]

resolve_identity-lfs_grant_example :
    (u : User) × (owns_key keyed.db 7 u ≡ true)
    × ((resolve_identity crypto oldest config
          (presenting (text "Basic bob:rgit_lfs_secret"))
          (text "1.2.3.4")
          (record granted { now = 1500 })).0
        ≡ lfs_caller u 5 false)
unfolding run parse_command parse_repository_path split_lfs_arguments split_once trim trim_start
    trim_end strip_suffix strip_prefix from_wire find_project query execute authorize_repo
    effective_access_level effective_level sql_max required_level level_from_i32 visibility_from_i32
    str_eq nocase repo_action issue_lfs_token draw trim_end_matches
resolve_identity-lfs_grant_example =
    resolve_identity-lfs_grant crypto oldest host 7 command keyed granted false demo grant config
      (text "1.2.3.4") 1500 refl (λ n. refl) (refl, (refl, tt)) no_colon refl (λ s. refl)
      (omega arith)
