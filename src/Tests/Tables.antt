-- ===== src/Tests/Tables.antt =====
-- The invariant of the small instance, and handlers that keep it.
use rgit.Common.{
  str_eq, ℕ, Str, text, Bool, false, ◌≡◌, refl, ◌==◌, Option, none, some, [], ◌∷◌, ℤ, pos, any,
  arith,
}
use rgit.Perm.{level_from_i32}
use rgit.Models.{User, blocked}
use rgit.Store.{Db, World, query, execute, transaction}
use rgit.Tables.Groups.{upsert_group_member}
use rgit.Tables.Groups.Owners.{AllOwned}
use rgit.Tables.Users.{UserPatch, update_user as update_row}
use rgit.Tables.Invariant.{set_member, here, next, Invariant}
use rgit.Tables.Invariant.Steps.{Reach-Invariant}
use rgit.Groups.{create, update, add_member, remove_member, delete}
use rgit.Groups.Steps.{handlers-Invariant}
use rgit.Admin.{Passwords, create_user, update_user, delete_user}
use rgit.Admin.Steps.{admin_handlers-Invariant}
use rgit.Admin.Blocked.{update_user-no_session}
use rgit.Autocreate.{Naming, ensure_project_for_push}
use rgit.Autocreate.Steps.{ensure_project_for_push-Invariant}
use rgit.Tests.Data.{alice, bob, alice_owns, bob_maintains, rows, world, bcrypt}

-- The group 10 is the only one, and alice owns it.
owned : AllOwned rows
unfolding str_eq
owned = record { at = λ g e. ground arith }

holds : Invariant rows
unfolding str_eq
holds = record {
  admin = refl;
  owned = owned;
  user_ids = (refl, (refl, tt));
  namespace_ids = (refl, tt);
}

abbrev demoted : Db
demoted = record rows {
  group_members = alice_owns ∷ (record bob_maintains { access_level = pos 30 }) ∷ [];
}

Reach-Invariant_example : Invariant demoted
unfolding upsert_group_member str_eq level_from_i32
Reach-Invariant_example =
    Reach-Invariant {d = rows} {d' = demoted} (next here (set_member 10 2 (pos 30) refl)) holds

handlers-Invariant_example :
    ((name path description : Str) → Invariant (create alice name path description world).1.db)
    × ((id : Str) (name path description : Option Str)
        → Invariant (update alice id name path description world).1.db)
    × ((id user_id : ℕ) (level : ℤ) → Invariant (add_member alice id user_id level world).1.db)
    × ((id member_id : ℕ) → Invariant (remove_member alice id member_id world).1.db)
    × ((id : ℕ) → Invariant (delete alice id world).1.db)
handlers-Invariant_example = handlers-Invariant alice world holds

abbrev passwords : Passwords
passwords = record { bcrypt = bcrypt; cost = 12; min_length = 8; decimal = λ n. text "n" }

admin_handlers-Invariant_example :
    ((username email name password : Str) (is_admin : Bool)
      → Invariant (create_user passwords username email name password is_admin world).1.db)
    × ((admin : User) (id : ℕ) (req : UserPatch)
        → Invariant (update_user passwords admin id req world).1.db)
    × ((admin : User) (id : ℕ) → Invariant (delete_user admin id world).1.db)
admin_handlers-Invariant_example = admin_handlers-Invariant passwords world holds

abbrev block : UserPatch
block = record {
  name = none;
  email = none;
  is_admin = none;
  state = some blocked;
  password_hash = none;
}

abbrev blocked_bob : User
blocked_bob = record bob { state = blocked; updated_at = 1000 }

abbrev after_block : World
after_block = (update_user passwords alice 2 block world).1

update_user-no_session_example : any (λ s. s.user_id == 2) after_block.db.sessions ≡ false
unfolding update_user query execute transaction update_row str_eq
update_user-no_session_example =
    update_user-no_session passwords alice 2 block blocked_bob world after_block refl refl

abbrev naming : Naming
naming = record { digest = λ s. s; decimal = λ n. text "n" }

ensure_project_for_push-Invariant_example :
    Invariant (ensure_project_for_push naming bob (text "bob") (text "new") world).1.db
ensure_project_for_push-Invariant_example =
    ensure_project_for_push-Invariant naming bob (text "bob") (text "new") world holds
