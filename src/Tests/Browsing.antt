-- ===== src/Tests/Browsing.antt =====
-- Browsing and forking on the small instance.
use rgit.Common.{
  ℕ, ◌≡◌, refl, Str, text, Option, none, some, List, [], ◌∷◌, pos, eq_ℤ, arith, Memᴰ, parse_i64,
  digits_value, str_eq, nocase, strip_prefix, strip_suffix, trim, if◌then◌else◌,
}
use rgit.Error.{not_found}
use rgit.Result.{ok, err}
use rgit.Perm.{required_level, level_from_i32, visibility_from_i32}
use rgit.Models.{Project}
use rgit.Auth.Authorize.Policy.{as_anyone, as_admin, as_user, as_holder}
use rgit.Auth.Identity.{nobody}
use rgit.GitRead.{Git}
use rgit.Browse.{
  TreeQuery, CommitsQuery, Mime, tree, blob, raw, commits, commit_detail, commit_diff, branches,
  tags, archive, readme,
}
use rgit.Browse.Readable.{Agree, handlers-confidential}
use rgit.Store.{World, query, execute, transaction}
use rgit.Locate.{locate}
use rgit.Projects.{writable_namespace}
use rgit.PathSegment.{validate_path_segment}
use rgit.Groups.{validate_name}
use rgit.Tables.Projects.{allocate_disk_id, insert_project}
use rgit.Storage.{disk_hash}
use rgit.Autocreate.{Naming, reserve_disk_id}
use rgit.Auth.Authorize.{authorize_repo, effective_access_level, effective_level, sql_max}
use rgit.Projects.Fork.{ForkRequest, fork, fork_local, share_objects}
use rgit.Projects.Fork.Shared.{IsFork, fork-IsFork}
use rgit.Tests.Data.{rows, world, bob, demo}

abbrev empty : Git
empty = record { run_limited = λ c n. err not_found; decode = λ s. s; decimal = λ n. n ∷ [] }

abbrev full : Git
full = record { run_limited = λ c n. ok (text "secret"); decode = λ s. s; decimal = λ n. n ∷ [] }

-- Private repositories that are empty, and others that are not.
abbrev all_empty : Project → Git
all_empty p = empty

abbrev private_full : Project → Git
private_full p = if eq_ℤ p.visibility (pos 20) then empty else full

public_alike : Agree all_empty private_full nobody world
public_alike p (as_anyone a b v) = rw v refl
public_alike p (as_admin u a b c d) = absurd (ground arith)
public_alike p (as_user u a b c d) = absurd (ground arith)
public_alike p (as_holder u l a b c d e) = absurd (ground arith)

abbrev tree_query : TreeQuery
tree_query = record { reference = none; path = []; page = none; per_page = none }

abbrev commits_query : CommitsQuery
commits_query = record { reference = none; path = none; page = none; per_page = none }

abbrev octets : Str → Mime
octets path = record {
  kind = text "application";
  subtype = text "octet-stream";
  essence = text "application/octet-stream";
}

abbrev id : Str
id = text "team/demo"

abbrev as_is : List ℕ → Str
as_is bytes = bytes

abbrev decoded : List ℕ → Option Str
decoded bytes = some bytes

handlers-confidential_example :
    (tree all_empty nobody id tree_query world ≡ tree private_full nobody id tree_query world)
    × (blob all_empty as_is nobody id tree_query world
        ≡ blob private_full as_is nobody id tree_query world)
    × (raw all_empty octets nobody id tree_query world
        ≡ raw private_full octets nobody id tree_query world)
    × (commits all_empty nobody id commits_query world
        ≡ commits private_full nobody id commits_query world)
    × (commit_detail all_empty nobody id (text "c0") world
        ≡ commit_detail private_full nobody id (text "c0") world)
    × (commit_diff all_empty nobody id (text "c0") world
        ≡ commit_diff private_full nobody id (text "c0") world)
    × (branches all_empty nobody id world ≡ branches private_full nobody id world)
    × (tags all_empty nobody id world ≡ tags private_full nobody id world)
    × (archive all_empty nobody id none (text "zip") world
        ≡ archive private_full nobody id none (text "zip") world)
    × (readme all_empty decoded nobody id tree_query world
        ≡ readme private_full decoded nobody id tree_query world)
handlers-confidential_example =
    handlers-confidential all_empty private_full nobody id (text "c0") (text "zip") tree_query
      commits_query none as_is octets decoded world public_alike

abbrev naming : Naming
naming = record { digest = λ s. s; decimal = λ n. n ∷ [] }

abbrev fork_request : ForkRequest
fork_request = record { namespace_id = some 10; path = some (text "demo2"); name = none }

abbrev forked : Project
forked = record demo {
  id = 6;
  path = text "demo2";
  disk_id = 8;
  disk_hash = 8 ∷ [];
  forked_from_project_id = some 5;
}

abbrev after_fork : World
after_fork = (fork naming bob (text "5") fork_request world).1

fork-IsFork_example :
    (source : Project) × Memᴰ source rows.projects × IsFork bob source forked rows after_fork
unfolding fork locate parse_i64 digits_value authorize_repo effective_access_level effective_level
    sql_max required_level level_from_i32 visibility_from_i32 str_eq nocase query execute
    transaction writable_namespace validate_path_segment strip_prefix strip_suffix validate_name
    trim reserve_disk_id allocate_disk_id fork_local insert_project disk_hash share_objects
fork-IsFork_example = fork-IsFork naming bob (text "5") fork_request forked world after_fork refl
