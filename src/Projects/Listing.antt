-- ===== src/Projects/Listing.antt =====
-- `list` of crates/rgit-http/src/handlers/api/projects.rs: the projects that the caller may see.
-- The WHERE clause is a test on a row, each LEFT JOIN the question whether a joined row is there.
use rgit.Common.{
  ℕ, Str, Bool, true, false, ◌&&◌, ◌||◌, ◌==◌, not, Option, none, some, List, [], ◌∷◌, ℤ, pos,
  leb_ℤ, eq_ℤ, ltb, any, retain, length, to_ascii_lowercase, nocase, text, if◌then◌else◌,
}
use rgit.Error.{invalid}
use rgit.Perm.{private_, internal, public, visibility_value}
use rgit.Models.{User, Project}
use rgit.Store.{Db, M, query, pure, check, ◌>>=◌, ◌>>◌}
use rgit.Auth.Authorize.{of_project, of_group, owned_by}
use rgit.Auth.Identity.{Identity}
use rgit.Pagination.{from_options, page_of}
use rgit.Projects.{render}

pub record ListQuery : Type 0 where
  pub search : Option Str
  pub namespace : Option Str
  pub visibility : Option ℤ
  pub page : Option ℕ
  pub per_page : Option ℕ

-- LIKE '%s%' for an `s` without `%`: ASCII letters match in either case, and `_` any character.
abbrev pub like_char : ℕ → ℕ → Bool
like_char c d = c == b'_' || to_ascii_lowercase c == to_ascii_lowercase d

abbrev pub like_start : Str → Str → Bool
like_start [] t = true
like_start (c ∷ s) [] = false
like_start (c ∷ s) (d ∷ t) = like_char c d && like_start s t

unfoldable pub like : Str → Str → Bool
like s [] = like_start s []
like s (d ∷ t) = like_start s (d ∷ t) || like s t

abbrev pub searched : Option Str → Str
searched none = []
searched (some s) = retain (λ c. not (c == b'%')) s

-- `(visible_floor, user_id, is_admin)`; no row has the user -1 of an anonymous caller.
abbrev pub visible_floor : Option User → ℕ
visible_floor none = visibility_value public
visible_floor (some u) = if u.is_admin then visibility_value private_ else visibility_value internal

abbrev pub is_admin : Option User → Bool
is_admin none = false
is_admin (some u) = u.is_admin

abbrev pub joined : Db → Option User → Project → Bool
joined d none p = false
joined d (some u) p =
    any (of_project p.id u.id) d.project_members
    || any (of_group p.namespace_id u.id) d.group_members
    || any (owned_by p.namespace_id u.id) d.namespaces

unfoldable pub visible : Db → Option User → Project → Bool
visible d caller p =
    is_admin caller || leb_ℤ (pos (visible_floor caller)) p.visibility || joined d caller p

abbrev pub in_namespace : Db → Option Str → Project → Bool
in_namespace d none p = true
in_namespace d (some path) p = any (λ n. n.id == p.namespace_id && nocase n.path path) d.namespaces

abbrev pub has_visibility : Option ℤ → Project → Bool
has_visibility none p = true
has_visibility (some v) p = eq_ℤ p.visibility v

abbrev pub matching : ListQuery → Db → Project → Bool
matching q d p =
    (like (searched q.search) p.name
      || like (searched q.search) p.path
      || like (searched q.search) p.description)
    && has_visibility q.visibility p
    && in_namespace d q.namespace p

abbrev pub listed : Option User → ListQuery → Db → List Project
listed caller q d = retain (λ p. visible d caller p && matching q d p) d.projects

-- ORDER BY updated_at DESC, id DESC
abbrev pub before : Project → Project → Bool
before p q = ltb q.updated_at p.updated_at || (p.updated_at == q.updated_at && ltb q.id p.id)

abbrev pub insert_row : Project → List Project → List Project
insert_row p [] = p ∷ []
insert_row p (q ∷ rows) = if before p q then p ∷ q ∷ rows else q ∷ insert_row p rows

abbrev pub newest_first : List Project → List Project
newest_first [] = []
newest_first (p ∷ rows) = insert_row p (newest_first rows)

abbrev pub valid_filter : Option ℤ → Bool
valid_filter none = true
valid_filter (some v) = eq_ℤ v (pos 0) || eq_ℤ v (pos 10) || eq_ℤ v (pos 20)

abbrev pub render_all : List Project → M (List Project)
render_all [] = pure []
render_all (p ∷ rows) = render p >>= (λ r. render_all rows >>= (λ rest. pure (r ∷ rest)))

abbrev pub with_total : ℕ → List Project → M (List Project × ℕ)
with_total total rows = render_all rows >>= (λ out. pure (out, total))

unfoldable pub list : Identity → ListQuery → M (List Project × ℕ)
list identity q =
    check (valid_filter q.visibility) (invalid (text "visibility must be 0, 10, or 20"))
    >> (query (λ d. length (listed identity.user q d)) >>= (λ total.
        query
          (λ d. page_of (from_options q.page q.per_page) (newest_first (listed identity.user q d)))
        >>= with_total total))
