-- ===== src/Tests/Transfer.antt =====
-- Uploads of LFS objects, and who reaches them.
use rgit.Common.{
  nocase, ℕ, Str, text, true, false, ◌≡◌, refl, ◌&&◌, some, List, [], ◌∷◌, pos, ltb, length, Memᴰ,
  str_eq, strip_suffix, strip_prefix,
}
use rgit.Perm.{write, required_level, level_from_i32}
use rgit.Store.{World, query}
use rgit.Auth.Identity.{Identity, basic, allows, lfs_project}
use rgit.Auth.Authorize.{authorize_repo, effective_access_level, effective_level, sql_max}
use rgit.Locate.{find_project}
use rgit.Lfs.{LfsConfig, resolve_lfs}
use rgit.Lfs.Access.{Reaches, resolve_lfs-Reaches}
use rgit.Lfs.Upload.{store_streaming, put_file, insert_object, link_object}
use rgit.Lfs.Upload.Stored.{Intact, concat, store_streaming-Intact}
use rgit.Lfs.Upload.Outcomes.{store_streaming-done}
use rgit.Tests.Data.{bob, demo, rows, world}

abbrev lfs_config : LfsConfig
lfs_config = record { enabled = true; max_file_size = 10; external_url = text "http://x" }

abbrev bob_basic : Identity
bob_basic = record { user = some bob; method = some basic }

abbrev resolved : World
resolved = (resolve_lfs lfs_config bob_basic (text "team") (text "demo.git") write world).1

resolve_lfs-Reaches_example : Reaches rows bob_basic demo write × Memᴰ demo rows.projects
unfolding resolve_lfs find_project query strip_suffix strip_prefix authorize_repo
    effective_access_level effective_level sql_max required_level level_from_i32 str_eq nocase
    allows lfs_project
resolve_lfs-Reaches_example =
    resolve_lfs-Reaches lfs_config bob_basic (text "team") (text "demo.git") write demo world
      resolved refl

-- A stand-in for SHA-256: the bytes are the digest.
abbrev hex : List ℕ → Str
hex bytes = bytes

abbrev chunks : List (List ℕ)
chunks = (1 ∷ 2 ∷ []) ∷ (3 ∷ []) ∷ []

none-Intact : Intact hex []
none-Intact f m = elim m [ ]

abbrev stored : World
stored = (store_streaming hex 10 5 (1 ∷ 2 ∷ 3 ∷ []) chunks world).1

store_streaming-Intact_example : Intact hex stored.lfs_files
store_streaming-Intact_example =
    store_streaming-Intact hex 10 5 (1 ∷ 2 ∷ 3 ∷ []) chunks world none-Intact

store_streaming-done_example :
    (hex (concat chunks) ≡ 1 ∷ 2 ∷ 3 ∷ [])
    × (ltb 0 10 && ltb 10 (length (concat chunks)) ≡ false)
    × (stored.lfs_files ≡ put_file (1 ∷ 2 ∷ 3 ∷ []) (concat chunks) [])
    × (stored.db
        ≡ link_object 5
            (1 ∷ 2 ∷ 3 ∷ [])
            (insert_object (1 ∷ 2 ∷ 3 ∷ []) (pos (length (concat chunks))) rows))
unfolding store_streaming str_eq
store_streaming-done_example =
    store_streaming-done hex 10 5 (1 ∷ 2 ∷ 3 ∷ []) chunks world stored refl
