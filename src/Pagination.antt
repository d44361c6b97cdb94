-- ===== src/Pagination.antt =====
-- The pages of crates/rgit-http/src/handlers/api/mod.rs, and LIMIT and OFFSET on the rows.
pub mod Pages
use rgit.Common.{ℕ, ◌-◌, ◌*◌, Option, none, some, List, ltb, take, drop, if◌then◌else◌}

-- Both fields are u32.
pub record Pagination : Type 0 where
  pub page : ℕ
  pub per_page : ℕ

abbrev unwrap_or : Option ℕ → ℕ → ℕ
unwrap_or none n = n
unwrap_or (some m) n = m

unfoldable pub from_options : Option ℕ → Option ℕ → Pagination
from_options page per_page = record { page = unwrap_or page 1; per_page = unwrap_or per_page 20 }

abbrev pub clamp : ℕ → ℕ → ℕ → ℕ
clamp n low high = if ltb n low then low else if ltb high n then high else n

abbrev pub at_least : ℕ → ℕ → ℕ
at_least n low = if ltb n low then low else n

unfoldable pub limit : Pagination → ℕ
limit p = clamp p.per_page 1 100

-- `self.page.max(1) as i64 - 1`, which is never negative
unfoldable pub offset : Pagination → ℕ
unfolding limit
offset p = (at_least p.page 1 - 1) * limit p

-- LIMIT ?1 OFFSET ?2
unfoldable pub page_of {ℓ} : {A : Type ℓ} → Pagination → List A → List A
unfolding limit offset
page_of p rows = take (limit p) (drop (offset p) rows)
