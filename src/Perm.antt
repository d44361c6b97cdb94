-- ===== src/Perm.antt =====
-- crates/rgit-core/src/perm.rs: access levels, visibility and repository actions.
use rgit.Common.{ℕ, Bool, leb, Option, none, some, ℤ, pos, negsuc, ◌==◌, if◌then◌else◌}

pub data AccessLevel : Type 0 where
  guest reporter developer maintainer owner : AccessLevel

pub data Visibility : Type 0 where
  private_ internal public : Visibility

pub data RepoAction : Type 0 where
  read write admin : RepoAction

-- `level as i32`
abbrev pub level_value : AccessLevel → ℕ
level_value guest = 10
level_value reporter = 20
level_value developer = 30
level_value maintainer = 40
level_value owner = 50

unfoldable pub level_from_i32 : ℤ → Option AccessLevel
level_from_i32 (negsuc n) = none
level_from_i32 (pos n) =
    if n == 10
    then some guest
    else if n == 20
    then some reporter
    else if n == 30
    then some developer
    else if n == 40
    then some maintainer
    else if n == 50
    then some owner
    else none

abbrev pub visibility_value : Visibility → ℕ
visibility_value private_ = 0
visibility_value internal = 10
visibility_value public = 20

unfoldable pub visibility_from_i32 : ℤ → Option Visibility
visibility_from_i32 (negsuc n) = none
visibility_from_i32 (pos n) =
    if n == 0
    then some private_
    else if n == 10
    then some internal
    else if n == 20
    then some public
    else none

-- The derived `PartialOrd` of the two enums: a ≤ b.
abbrev pub level_le : AccessLevel → AccessLevel → Bool
level_le a b = leb (level_value a) (level_value b)

abbrev pub visibility_le : Visibility → Visibility → Bool
visibility_le a b = leb (visibility_value a) (visibility_value b)

unfoldable pub required_level : RepoAction → AccessLevel
required_level read = guest
required_level write = developer
required_level admin = maintainer
