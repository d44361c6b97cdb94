-- ===== src/Auth/Token/Scopes.antt =====
-- What a set of token scopes grants.
use rgit.Common.{◌≡◌, refl, ◌↔◌, true, ◌||◌, List, arith, Memᴰ, Mem-of_any, any-of_Mem}
use rgit.Auth.Token.{
  Scope, api, read_api, read_repository, write_repository, same_scope, implies, scopes_allow,
}

-- The documented meaning of the scopes: `api` is everything, and `write_repository` includes
-- `read_repository`.
pub data Grants : Scope → Scope → Type 0 where
  itself : (s : Scope) → Grants s s
  everything : (s : Scope) → Grants api s
  push_reads : Grants write_repository read_repository

Grants-allows : (s t : Scope) → (same_scope s t || implies s t) ≡ true → Grants s t
Grants-allows api t h = everything t
Grants-allows read_api read_api h = itself read_api
Grants-allows read_repository read_repository h = itself read_repository
Grants-allows write_repository write_repository h = itself write_repository
Grants-allows write_repository read_repository h = push_reads
Grants-allows _ _ h = cc

allows-Grants : (s t : Scope) → Grants s t → (same_scope s t || implies s t) ≡ true
allows-Grants s t (itself _) = ground arith
allows-Grants s t (everything _) = ground arith
allows-Grants s t push_reads = refl

-- A token allows a scope exactly if one of its own scopes grants it.
pub scopes_allow_iff :
    (scopes : List Scope) (needed : Scope)
    → (scopes_allow scopes needed ≡ true) ↔ ((s : Scope) × Memᴰ s scopes × Grants s needed)
unfolding scopes_allow
scopes_allow_iff scopes needed = (
  λ h. let (s, m, t) = Mem-of_any _ scopes h in (s, m, Grants-allows s needed t),
  λ g. any-of_Mem _ scopes g.0 g.1 (allows-Grants g.0 needed g.2),
)
