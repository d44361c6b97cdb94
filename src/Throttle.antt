-- ===== src/Throttle.antt =====
-- The in-memory login throttle of crates/rgit-http/src/handlers/api/session.rs. The map is a list
-- of entries; which key a full map gives up is the argument `victim`, since the iteration order of
-- a HashMap is not specified. Instants are seconds.
pub mod Laws
pub mod Lockout
use rgit.Common.{
  ℕ, suc, ◌+◌, ◌%◌, Str, text, ◌++◌, Bool, true, false, not, ◌&&◌, List, [], ◌∷◌, Option, none,
  some, map, ltb, leb, str_eq, length, retain, find, is_some, to_ascii_lowercase, if◌then◌else◌,
}

-- A key with its failures so far and the end of its lockout.
pub record Entry : Type 0 where
  pub key : Str
  pub failures : ℕ
  pub expires : ℕ

abbrev pub Failures : Type 0
Failures = List Entry

abbrev pub max_failure_keys : ℕ
max_failure_keys = 10000

unfoldable pub throttle_key : Str → Str → Str
throttle_key login ip = text "login\n" ++ map to_ascii_lowercase login ++ text "\n" ++ ip

unfoldable pub ip_throttle_key : Str → Str
ip_throttle_key ip = text "ip\n" ++ ip

abbrev pub live : ℕ → Failures → Failures
live now m = retain (λ e. ltb now e.expires) m

unfoldable pub get : Str → Failures → Option Entry
get key m = find (λ e. str_eq e.key key) m

unfoldable pub remove : Str → Failures → Failures
remove key m = retain (λ e. not (str_eq e.key key)) m

-- `Some((n, until)) if *n >= max => *until > now`
abbrev locked : ℕ → ℕ → Option Entry → Bool
locked now max none = false
locked now max (some e) = if leb max e.failures then ltb now e.expires else false

-- The answer, and the map without the expired entries.
unfoldable pub check_lockout : ℕ → Str → ℕ → Failures → Bool × Failures
check_lockout now key max m = (locked now max (get key (live now m)), live now m)

abbrev evict : Option Str → Failures → Failures
evict none m = m
evict (some k) m = remove k m

abbrev make_room : (Failures → Option Str) → Str → Failures → Failures
make_room victim key m =
    if leb max_failure_keys (length m) && not (is_some (get key m)) then evict (victim m) m else m

-- `map.entry(key).or_insert((0, now))`, then `entry.0 += 1` on a u32 and `entry.1 = now + lockout`
unfoldable pub bump : Str → ℕ → Failures → Failures
bump key expires [] = record { key = key; failures = 1; expires = expires } ∷ []
bump key expires (e ∷ m) =
    if str_eq e.key key
    then record e { failures = (e.failures + 1) % 0x1_0000_0000; expires = expires } ∷ m
    else e ∷ bump key expires m

unfoldable pub record_failure : (Failures → Option Str) → ℕ → Str → ℕ → Failures → Failures
unfolding bump
record_failure victim now key lockout m =
    bump key (now + lockout) (make_room victim key (live now m))

unfoldable pub clear_failures : Str → Failures → Failures
unfolding remove
clear_failures key m = remove key m
