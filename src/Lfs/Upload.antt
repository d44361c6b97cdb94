-- ===== src/Lfs/Upload.antt =====
-- crates/rgit-http/src/handlers/lfs.rs: `upload` and `store_streaming`. The body is a list of chunks;
-- SHA-256 in hex is an argument. Bodies are shorter than 2^63 bytes.
pub mod Stored
pub mod Outcomes
use rgit.Common.{
  ℕ, suc, ◌+◌, Str, text, ◌++◌, Bool, not, ◌&&◌, ltb, List, [], ◌∷◌, ℤ, pos, any, find, retain,
  length, str_eq, Option, none, some, if◌then◌else◌,
}
use rgit.Result.{Result, ok, err}
use rgit.Perm.{write}
use rgit.Models.{Project, LfsObject}
use rgit.Store.{Db, World}
use rgit.Auth.Identity.{Identity}
use rgit.Tables.Groups.{next_id}
use rgit.Outcome.{Outcome, done, refused, L, ◌>>=◌, ◌>>◌, match_on, refuse, give}
use rgit.Storage.{is_valid_lfs_oid}
use rgit.Lfs.{LfsConfig, resolve_lfs}
use rgit.Lfs.Objects.{is_object, link}

abbrev storage_failure : Str
storage_failure = text "storage failure"

-- A call of the file system or of the stream, which may fail.
abbrev pub call : L (Unit {0})
call w = (
  if w.fails w.calls then refused 500 storage_failure else done tt,
  record w { calls = suc w.calls },
)

-- The loop over the stream: read a chunk, count, hash and write it.
abbrev pub receive : ℕ → ℕ → List ℕ → List (List ℕ) → L (List ℕ)
receive max written bytes [] = give bytes
receive max written bytes (chunk ∷ chunks) =
    let written' = written + length chunk in
    let rest = receive max written' (bytes ++ chunk) chunks in
    call
    >> (if ltb 0 max && ltb max written'
        then refuse 422 (text "object too large")
        else (call >> rest))

-- fs::rename of the temporary file: an object of that name is replaced
abbrev pub put_file : Str → List ℕ → List (Str × List ℕ) → List (Str × List ℕ)
put_file oid bytes files = (oid, bytes) ∷ retain (λ f. not (str_eq f.0 oid)) files

abbrev rename_part : Str → List ℕ → L (Unit {0})
rename_part oid bytes w =
    if w.fails w.calls
    then (refused 500 storage_failure, record w { calls = suc w.calls })
    else (done tt, record w { calls = suc w.calls; lfs_files = put_file oid bytes w.lfs_files })

-- INSERT OR IGNORE INTO lfs_objects; `oid` is unique
abbrev pub insert_object : Str → ℤ → Db → Db
insert_object oid size d = if any (is_object oid) d.lfs_objects then d else (record d {
  lfs_objects =
      record { id = next_id (λ (o : LfsObject). o.id) d.lfs_objects; oid = oid; size = size }
      ∷ d.lfs_objects;
})

-- INSERT OR IGNORE … SELECT ?1, id FROM lfs_objects WHERE oid = ?2
abbrev link_row : ℕ → Option LfsObject → Db → Db
link_row project_id none d = d
link_row project_id (some o) d = link project_id o.id d

abbrev pub link_object : ℕ → Str → Db → Db
link_object project_id oid d = link_row project_id (find (is_object oid) d.lfs_objects) d

-- BEGIN, both statements, COMMIT: four calls, of which each may fail and leave the tables as they were
abbrev pub record_rows : ℕ → Str → ℕ → L (Unit {0})
record_rows project_id oid size w =
    let d = w.db in
    let rows = link_object project_id oid (insert_object oid (pos size) d) in
    (call >> call >> call >> call >> (λ v. (done tt, record v { db = rows }))) w

module _ (sha256_hex : List ℕ → Str) where
  abbrev pub check_digest : Str → List ℕ → L (Unit {0})
  check_digest oid bytes =
      if not (str_eq (sha256_hex bytes) oid) then refuse 422 (text "oid/size mismatch") else give tt

  -- fsync, the comparison of the digests and create_dir_all
  abbrev pub prepared : Str → List ℕ → L (Unit {0})
  prepared oid bytes = call >> check_digest oid bytes >> call

  -- The file is renamed into place only after its digest is the object's name.
  abbrev pub finish : ℕ → Str → List ℕ → L (Unit {0})
  finish project_id oid bytes =
      prepared oid bytes >> rename_part oid bytes >> record_rows project_id oid (length bytes)

  unfoldable pub store_streaming : ℕ → ℕ → Str → List (List ℕ) → L (Unit {0})
  store_streaming max project_id oid chunks =
      call >> call >> receive max 0 [] chunks >>= finish project_id oid

  unfoldable pub upload : LfsConfig → Str → Str → Str → Identity → List (List ℕ) → L (Unit {0})
  upload config ns proj oid identity chunks =
      resolve_lfs config identity ns proj write >>= (λ project.
        if not (is_valid_lfs_oid oid)
        then refuse 422 (text "invalid oid")
        else store_streaming config.max_file_size project.id oid chunks)
