-- ===== src/Storage.antt =====
-- crates/rgit-core/src/storage.rs: where repositories and LFS objects lie on disk. The SHA-256 digest
-- in hex is an argument. A path is the text below its root directory.
-- pub mod Paths
use rgit.Common.{ℕ, Str, text, Bool, ◌&&◌, ◌||◌, ◌==◌, ◌++◌, leb, all, length, take, drop}

module _ (digest : Str → Str) where
  -- `disk_id.to_string()` is the number in decimal.
  unfoldable pub disk_hash : (ℕ → Str) → ℕ → Str
  disk_hash decimal disk_id = digest (decimal disk_id)

-- &hash[0..2] and &hash[2..4]
abbrev pub first_shard : Str → Str
first_shard hash = take 2 hash

abbrev pub second_shard : Str → Str
second_shard hash = take 2 (drop 2 hash)

abbrev pub hashed_path : Str → Str → Str
hashed_path suffix hash =
    text "@hashed/"
    ++ first_shard hash
    ++ text "/"
    ++ second_shard hash
    ++ text "/"
    ++ hash
    ++ suffix

unfoldable pub repo_rel_path : Str → Str
repo_rel_path hash = hashed_path (text ".git") hash

unfoldable pub wiki_rel_path : Str → Str
wiki_rel_path hash = hashed_path (text ".wiki.git") hash

unfoldable pub design_rel_path : Str → Str
design_rel_path hash = hashed_path (text ".design.git") hash

unfoldable pub lfs_rel_path : Str → Str
lfs_rel_path oid = first_shard oid ++ text "/" ++ second_shard oid ++ text "/" ++ drop 4 oid

abbrev pub is_lower_hex : ℕ → Bool
is_lower_hex c = (leb b'0' c && leb c b'9') || (leb b'a' c && leb c b'f')

unfoldable pub is_valid_lfs_oid : Str → Bool
is_valid_lfs_oid oid = length oid == 64 && all is_lower_hex oid
