-- ===== src/Lfs/Objects.antt =====
-- crates/rgit-http/src/handlers/lfs.rs: batch, download and verify.
use rgit.Common.{
  ℕ, zero, suc, Str, text, ◌++◌, Bool, true, false, not, ◌&&◌, ◌||◌, ◌==◌, ltb, Option, none, some,
  List, [], ◌∷◌, ℤ, pos, negsuc, eq_ℤ, any, find, length, str_eq, strip_suffix, if◌then◌else◌,
}
use rgit.Result.{Result, ok, err}
use rgit.Perm.{RepoAction, read, write}
use rgit.Models.{Project, LfsObject}
use rgit.Store.{Db, World, query, execute}
use rgit.Auth.Authorize.{is_write}
use rgit.Auth.Identity.{Identity}
use rgit.Outcome.{refused, L, ◌>>=◌, match_on, refuse, give}
use rgit.Storage.{is_valid_lfs_oid}
use rgit.Lfs.{LfsConfig, resolve_lfs}

pub record ObjectSpec : Type 0 where
  pub oid : Str
  pub size : ℤ

pub record Href : Type 0 where
  pub href : Str
  pub authorization : Option Str

-- `actions` is the JSON object of the actions offered, none when it is left out.
pub record BatchObject : Type 0 where
  pub oid : Str
  pub size : ℤ
  pub authenticated : Option Bool
  pub actions : List (Str × Href)
  pub error : Option (ℕ × Str)

-- str::trim_end_matches; the fuel is the length of the text.
abbrev trim_matches : ℕ → Str → Str → Str
trim_matches zero p s = s
trim_matches (suc n) p s = elim (strip_suffix p s) [ none ↦ s | some t ↦ trim_matches n p t ]

unfoldable pub trim_end_matches : Str → Str → Str
trim_end_matches p s = trim_matches (length s) p s

abbrev pub refused_object : ObjectSpec → ℕ → Str → BatchObject
refused_object spec code message = record {
  oid = spec.oid;
  size = spec.size;
  authenticated = none;
  actions = [];
  error = some (code, message);
}

abbrev pub granted_object : ObjectSpec → ℤ → List (Str × Href) → BatchObject
granted_object spec size actions = record {
  oid = spec.oid;
  size = size;
  authenticated = some true;
  actions = actions;
  error = none;
}

-- The size of an object that is linked to the project.
abbrev pub is_object : Str → LfsObject → Bool
is_object oid o = str_eq o.oid oid

abbrev pub is_linked : ℕ → Db → LfsObject → Bool
is_linked project_id d o =
    any (λ l. l.project_id == project_id && l.lfs_object_id == o.id) d.project_lfs_objects

abbrev pub size_of : Option LfsObject → Option ℤ
size_of none = none
size_of (some o) = some o.size

abbrev pub linked_size : ℕ → Str → Db → Option ℤ
linked_size project_id oid d =
    size_of (find (λ o. is_object oid o && is_linked project_id d o) d.lfs_objects)

abbrev join_path : Str → Str → Str
join_path base name = base ++ text "/" ++ name

-- INSERT OR IGNORE INTO project_lfs_objects
abbrev pub link : ℕ → ℕ → Db → Db
link project_id lfs_id d =
    if any (λ l. l.project_id == project_id && l.lfs_object_id == lfs_id) d.project_lfs_objects
    then d
    else (record d {
      project_lfs_objects =
          record { project_id = project_id; lfs_object_id = lfs_id } ∷ d.project_lfs_objects;
    })

-- `max > 0 && spec.size as u64 > max`, for a size that is not negative
abbrev pub too_large : ℕ → ℤ → Bool
too_large max (pos n) = ltb 0 max && ltb max n
too_large max (negsuc n) = false

abbrev is_negative : ℤ → Bool
is_negative (pos n) = false
is_negative (negsuc n) = true

module _ (base : Str) (auth : Option Str) where
  abbrev downloaded : ObjectSpec → Result (Option ℤ) → L BatchObject
  downloaded spec (err _) = refuse 500 (text "internal error")
  downloaded spec (ok none) = give (refused_object spec 404 (text "object not found"))
  downloaded spec (ok (some size)) = give (
      granted_object spec size
        ((text "download", record { href = join_path base spec.oid; authorization = auth }) ∷ []))

  unfoldable pub batch_download_object : Project → ObjectSpec → L BatchObject
  batch_download_object project spec =
      match_on (query (linked_size project.id spec.oid)) (downloaded spec)

  abbrev linked : ObjectSpec → Result (Unit {0}) → L BatchObject
  linked spec (err _) = refuse 500 (text "internal error")
  linked spec (ok _) = give (granted_object spec spec.size [])

  abbrev uploads : ObjectSpec → List (Str × Href)
  uploads spec =
      (text "upload", record { href = join_path base spec.oid; authorization = auth })
      ∷ (
        text "verify",
        record {
          href = join_path (trim_end_matches (text "/objects") base) (text "verify");
          authorization = auth;
        },
      )
      ∷ []

  abbrev stored : Project → ObjectSpec → Result (Option LfsObject) → L BatchObject
  stored project spec (err _) = refuse 500 (text "internal error")
  stored project spec (ok none) = give (granted_object spec spec.size (uploads spec))
  stored project spec (ok (some o)) =
      if not (eq_ℤ o.size spec.size)
      then give (refused_object spec 422 (text "size mismatch"))
      else match_on (execute (λ d. ok (tt, link project.id o.id d))) (linked spec)

  unfoldable pub batch_upload_object : ℕ → Project → ObjectSpec → L BatchObject
  batch_upload_object max project spec =
      if too_large max spec.size
      then give (refused_object spec 422 (text "object too large"))
      else match_on (query (λ d. find (is_object spec.oid) d.lfs_objects)) (stored project spec)

  unfoldable pub batch_object : ℕ → RepoAction → Project → ObjectSpec → L BatchObject
  unfolding batch_download_object batch_upload_object
  batch_object max action project spec =
      if not (is_valid_lfs_oid spec.oid) || is_negative spec.size
      then give (refused_object spec 422 (text "invalid oid"))
      else if is_write action
      then batch_upload_object max project spec
      else batch_download_object project spec

  -- The loop over the request's objects.
  abbrev pub batch_objects : ℕ → RepoAction → Project → List ObjectSpec → L (List BatchObject)
  batch_objects max action project [] = give []
  batch_objects max action project (spec ∷ specs) =
      batch_object max action project spec
      >>= (λ o. batch_objects max action project specs >>= (λ os. give (o ∷ os)))

abbrev operation_action : Str → Option RepoAction
operation_action operation =
    if str_eq operation (text "download")
    then some read
    else if str_eq operation (text "upload")
    then some write
    else none

abbrev objects_base : LfsConfig → Str → Project → Str
objects_base config ns project =
    trim_end_matches (text "/") config.external_url
    ++ text "/"
    ++ ns
    ++ text "/"
    ++ project.path
    ++ text ".git/info/lfs/objects"

abbrev batch_of :
    LfsConfig
    → Str
    → Str
    → Identity
    → Option Str
    → List ObjectSpec
    → Option RepoAction
    → L (List BatchObject)
batch_of config ns proj identity auth objects none = refuse 422 (text "unknown operation")
batch_of config ns proj identity auth objects (some action) =
    resolve_lfs config identity ns proj action >>= (λ project.
      batch_objects (objects_base config ns project) auth config.max_file_size action project
        objects)

unfoldable pub batch :
    LfsConfig → Str → Str → Identity → Option Str → Str → List ObjectSpec → L (List BatchObject)
batch config ns proj identity auth operation objects =
    batch_of config ns proj identity auth objects (operation_action operation)

-- `unwrap_or(None)`: a database error reads as a missing row.
abbrev row_or_none : Result (Option ℤ) → Option ℤ
row_or_none (ok r) = r
row_or_none (err _) = none

abbrev pub stored_bytes : Str → World → Option (Str × List ℕ)
stored_bytes oid w = find (λ f. str_eq f.0 oid) w.lfs_files

abbrev opened : ℤ → Option (Str × List ℕ) → L (ℤ × List ℕ)
opened size none = refuse 404 (text "object missing")
opened size (some (_, bytes)) = give (size, bytes)

abbrev open_file : Str → Option ℤ → L (ℤ × List ℕ)
open_file oid none w = (refused 404 (text "object not linked to project"), w)
open_file oid (some size) w =
    if w.fails w.calls
    then (refused 404 (text "object missing"), record w { calls = suc w.calls })
    else opened size (stored_bytes oid w) (record w { calls = suc w.calls })

-- The size that the answer declares, and the bytes that it streams.
unfoldable pub download : LfsConfig → Str → Str → Str → Identity → L (ℤ × List ℕ)
download config ns proj oid identity = resolve_lfs config identity ns proj read >>= (λ project.
    if not (is_valid_lfs_oid oid)
    then refuse 404 (text "not found")
    else match_on (query (linked_size project.id oid)) (λ r. open_file oid (row_or_none r)))

abbrev same_size : ObjectSpec → Option ℤ → L (Unit {0})
same_size spec none = refuse 404 (text "object not found or size mismatch")
same_size spec (some s) =
    if eq_ℤ s spec.size then give tt else refuse 404 (text "object not found or size mismatch")

unfoldable pub verify : LfsConfig → Str → Str → Identity → ObjectSpec → L (Unit {0})
verify config ns proj identity spec = resolve_lfs config identity ns proj write >>= (λ project.
    match_on (query (linked_size project.id spec.oid)) (λ r. same_size spec (row_or_none r)))
