-- ===== src/Tests/Serving.antt =====
-- Git over HTTP, the list of projects and a deletion on the small instance.
use rgit.Common.{
  ℕ, ◌<◌, ◌≡◌, refl, ap, Str, text, ◌++◌, true, false, ◌==◌, Option, none, some, List, [], ◌∷◌,
  Memᴰ, ◌↔◌, nocase, str_eq, str_eq_iff, strip_suffix, strip_prefix, parse_i64, digits_value,
  length, length-append, arith, Bool-cases, inl, inr,
}
use rgit.Error.{db, unavailable}
use rgit.Result.{ok}
use rgit.Perm.{owner, maintainer, read, required_level, level_from_i32, visibility_from_i32}
use rgit.Models.{User}
use rgit.Store.{World, query, execute}
use rgit.Auth.Authorize.{authorize_repo, effective_access_level, effective_level, sql_max}
use rgit.Auth.Authorize.Levels.{HasLevels}
use rgit.Auth.Identity.{Identity, basic, session, allows, lfs_project}
use rgit.Pagination.{page_of, limit, offset, from_options}
use rgit.Locate.{find_project, locate}
use rgit.Protocol.{upload_pack, name}
use rgit.Autocreate.{Naming}
use rgit.GitHttp.{resolve_and_authorize, service_rpc, has_type}
use rgit.GitHttp.Resolved.{Reaches, service_rpc-Reaches}
use rgit.Auth.Authorize.Policy.{May, authorize_repo_complete}
use rgit.GitHttp.Opaque.{resolve_and_authorize-opaque}
use rgit.Projects.{require_admin_level}
use rgit.Projects.Listing.{ListQuery, list, visible, like}
use rgit.Projects.Listed.{list-readable, visible-authorize_repo_iff}
use rgit.Projects.Delete.{delete, exists, trash_of, move_all, remove_project, restore_soft_deleted}
use rgit.Projects.Delete.Restored.{SameDirs}
use rgit.Projects.Delete.Moves.{FailsOnce}
use rgit.Projects.Delete.Undone.{delete-undone}
use rgit.Tables.Projects.{delete_project}
use rgit.Tests.Data.{alice, bob, demo, team, rows, world}

abbrev naming : Naming
naming = record { digest = λ s. s; decimal = λ n. n ∷ [] }

abbrev by_password : Identity
by_password = record { user = some bob; method = some basic }

abbrev content_type : Option Str
content_type = some (text "application/x-git-upload-pack-request")

abbrev served : World
served =
    (service_rpc naming by_password (text "team") (text "demo.git") upload_pack content_type
      world).1

service_rpc-Reaches_example :
    (has_type content_type (text "application/x-" ++ (name upload_pack ++ text "-request")) ≡ true)
    × Reaches served.db by_password demo upload_pack
unfolding service_rpc name resolve_and_authorize find_project query strip_suffix strip_prefix
    authorize_repo effective_access_level effective_level sql_max required_level level_from_i32
    str_eq nocase allows lfs_project visibility_from_i32
service_rpc-Reaches_example =
    service_rpc-Reaches naming by_password (text "team") (text "demo.git") upload_pack content_type
      demo world served refl

abbrev carol : User
carol = record bob { id = 3; username = text "carol" }

abbrev outsider : Identity
outsider = record { user = some carol; method = some session }

abbrev calls : ℕ → World
calls n = record world { calls = n }

valid : HasLevels rows
valid = record { projects = tt; groups = ((owner, refl), ((maintainer, refl), tt)) }

carol-MayNot : May rows (some carol) demo read → ⊥
unfolding authorize_repo effective_access_level effective_level sql_max required_level
    level_from_i32 visibility_from_i32 query str_eq
carol-MayNot may = cc (authorize_repo_complete demo read world (λ n. refl) (some carol) valid may)

resolve_and_authorize-opaque_example :
    (resolve_and_authorize naming outsider (text "team") (text "demo.git") upload_pack world).0
    ≡ (resolve_and_authorize naming outsider (text "team") (text "nothing.git") upload_pack world).0
unfolding find_project query strip_suffix strip_prefix authorize_repo effective_access_level
    effective_level sql_max required_level level_from_i32 visibility_from_i32 str_eq nocase
resolve_and_authorize-opaque_example =
    resolve_and_authorize-opaque naming outsider upload_pack (text "team") (text "demo.git")
      (text "demo") (text "team") (text "nothing.git") (text "nothing") team demo carol world
      (calls 2) world (calls 2) refl refl refl refl carol-MayNot refl refl refl

abbrev everything : ListQuery
everything = record {
  search = none;
  namespace = none;
  visibility = none;
  page = none;
  per_page = none;
}

abbrev listing : World
listing = (list by_password everything world).1

list-readable_example :
    Memᴰ demo rows.projects × ((authorize_repo (some bob) demo read world).0 ≡ ok tt)
unfolding list visible like page_of limit offset from_options query nocase visibility_from_i32
list-readable_example =
    list-readable by_password everything (demo ∷ []) 1 world listing demo refl (λ n. refl) valid
      refl (Memᴰ.head refl) refl

visible-authorize_repo_iff_example :
    (visible rows (some bob) demo ≡ true) ↔ ((authorize_repo (some bob) demo read world).0 ≡ ok tt)
unfolding visibility_from_i32
visible-authorize_repo_iff_example =
    visible-authorize_repo_iff (some bob) demo world (λ n. refl) valid refl refl

abbrev repos : List Str
repos = text "h7" ∷ text "h7.wiki" ∷ []

-- The fifth call after the first is the COMMIT.
abbrev doomed : World
doomed = record world { fails = λ n. n == 5; repos = repos }

abbrev stamp : Str
stamp = text "20260101000000"

too_long : (s t : Str) → length t < length s → str_eq s t ≡ false
too_long s t h = elim (Bool-cases (str_eq s t)) [
  | inl e ↦ absurd (omega (arith, ap length ((str_eq_iff s t).0 e)))
  | inr f ↦ f
]

no_trash : (path : Str) → exists (trash_of stamp path) repos ≡ false
no_trash path =
    let long : 20 < length (trash_of stamp path) =
      omega (arith, length-append path (text ".deleted." ++ stamp)) in
    ground (
      arith,
      too_long (trash_of stamp path) (text "h7") (omega (arith, long)),
      too_long (trash_of stamp path) (text "h7.wiki") (omega (arith, long)),
    )

once : FailsOnce doomed
once m n h k = ground arith

abbrev kept : World
kept = (delete stamp alice (text "5") doomed).1

delete-undone_example : (kept.db ≡ rows) × SameDirs kept.repos repos
unfolding delete remove_project move_all restore_soft_deleted delete_project require_admin_level
    locate parse_i64 digits_value query execute str_eq
delete-undone_example =
    delete-undone stamp alice (text "5") doomed kept (db unavailable) refl once no_trash
