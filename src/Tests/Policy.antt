-- ===== src/Tests/Policy.antt =====
-- Access decisions and changes of members on the small instance.
use rgit.Common.{
  ◌≤◌, [], ◌∷◌, ◌≢◌, parse_i64, digits_value, ℕ, text, true, false, ◌≡◌, refl, some, pos, leb_ℤ,
  str_eq, Memᴰ,
}
use rgit.Perm.{owner, AccessLevel, level_value, write, maintainer, required_level, level_from_i32}
use rgit.Result.{ok}
use rgit.Models.{Project, ProjectMember}
use rgit.Store.{World, query, execute}
use rgit.Auth.Authorize.{authorize_repo, effective_access_level, effective_level, sql_max}
use rgit.Auth.Authorize.Levels.{Holds, as_group_member, HasLevels}
use rgit.Auth.Authorize.Policy.{May, as_holder, authorize_repo_sound, authorize_repo_complete}
use rgit.Members.Written.{IsOf, SetsLevel, OnePerUser}
use rgit.Members.{add, remove, caller_level, level_of, is_above}
use rgit.Members.Escalation.{ActsAt, add-no_escalation, remove-no_escalation}
use rgit.Tables.Projects.{upsert_project_member, delete_project_member}
use rgit.Locate.{locate}
use rgit.Tests.Data.{bob, demo, rows, world, bob_maintains}

abbrev asked : World
asked = record world { calls = 1 }

authorize_repo-sound_example : May rows (some bob) demo write
unfolding authorize_repo effective_access_level effective_level sql_max query required_level
    level_from_i32 str_eq
authorize_repo-sound_example = authorize_repo_sound demo write (some bob) world asked refl

valid : HasLevels rows
valid = record { projects = tt; groups = ((owner, refl), ((maintainer, refl), tt)) }

bob-Holds : Holds rows 2 demo (pos 40)
bob-Holds = as_group_member bob_maintains (Memᴰ.tail (Memᴰ.head refl)) refl refl refl

bob-May : May rows (some bob) demo write
unfolding required_level
bob-May = as_holder bob (pos 40) refl refl bob-Holds refl refl

authorize_repo-complete_example : (authorize_repo (some bob) demo write world).0 ≡ ok tt
authorize_repo-complete_example =
    authorize_repo_complete demo write world (λ n. refl) (some bob) valid bob-May

abbrev added : World
added = (add bob (text "5") 1 (pos 30) world).1

-- A developer becomes a reporter.
abbrev joined : World
joined = record world {
  db = record rows {
    project_members = record { project_id = 5; user_id = 1; access_level = pos 30 } ∷ [];
  };
}

abbrev lowered : World
lowered = (add bob (text "5") 1 (pos 20) joined).1

one_member : OnePerUser joined.db.project_members
one_member m n (Memᴰ.head e) (Memᴰ.head e') p u = cc
one_member m n (Memᴰ.tail k) o p u = elim k [ ]
one_member m n o (Memᴰ.tail k) p u = elim k [ ]

add-no_escalation_example :
    (p : Project) × (l : AccessLevel) × Memᴰ p joined.db.projects
    × ActsAt joined.db bob p l
    × (leb_ℤ (pos 20) (pos (level_value l)) ≡ true)
    × ((m : ProjectMember) (k : AccessLevel)
        → Memᴰ m joined.db.project_members
        → IsOf p.id 1 m
        → m.access_level ≡ pos (level_value k)
        → level_value k ≤ level_value l)
    × SetsLevel p.id 1 (pos 20) joined.db lowered.db
unfolding add locate caller_level effective_access_level effective_level sql_max query execute
    level_from_i32 upsert_project_member digits_value parse_i64
add-no_escalation_example =
    add-no_escalation bob refl (text "5") 1 (pos 20) joined lowered refl one_member

abbrev removed : World
removed = (remove bob (text "5") 1 added).1

remove-no_escalation_example :
    (p : Project) × (l : AccessLevel) × (n : ℕ) × Memᴰ p added.db.projects
    × ActsAt added.db bob p l
    × (is_above l (level_of p.id 1 added.db) ≡ false)
    × (delete_project_member p.id 1 added.db ≡ ok (n, removed.db))
    × (n ≢ 0)
unfolding add remove locate caller_level effective_access_level effective_level sql_max query
    execute level_from_i32 upsert_project_member delete_project_member digits_value parse_i64
remove-no_escalation_example = remove-no_escalation bob refl (text "5") 1 added removed refl refl
