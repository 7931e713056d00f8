-- ===== src/Healthcheck/Consistent.antt =====
-- The invariant of the health check manager: statuses and running checks match one to one. Every
-- tracked address has one check that runs for it, and every check that runs belongs to the status of
-- its address.
pub mod Steps
pub mod Update
use ezlb.Shared.{
  ℕ, ◌≤◌, ◌≡◌, refl, inl, inr, String, Bool, true, false, not, ◌&&◌, ◌||◌, Option, none, some,
  arith,
}
use ezlb.Shared.Eq.{◌==◌, nat_eq, string_eq}
use ezlb.Shared.GoMap.{GoMap, lookup, HasDistinctKeys}
use ezlb.Healthcheck.{BackendStatus, Check, Manager, new_manager}

-- A check that runs for the address.
abbrev pub is_live_at : String → Option Check → Bool
is_live_at address none = false
is_live_at address (some c) = c.live && c.address == address

-- A status at an address that has such a check, if there is one.
abbrev pub is_owned : String → Option BackendStatus → GoMap ℕ Check → Bool
is_owned address none checks = true
is_owned address (some s) checks =
    s.address == address && is_live_at address (lookup s.cancel checks)

abbrev pub holds : ℕ → Option BackendStatus → Bool
holds id none = false
holds id (some s) = s.cancel == id

-- A check that has ended, or that the status of its address holds.
abbrev pub is_held : ℕ → Option Check → GoMap String BackendStatus → Bool
is_held id none statuses = true
is_held id (some c) statuses = not c.live || holds id (lookup c.address statuses)

pub record IsConsistent (m : Manager) : Type 0 where
  pub distinct : HasDistinctKeys m.statuses
  pub owned : (address : String) → is_owned address (lookup address m.statuses) m.checks ≡ true
  pub held : (id : ℕ) → is_held id (lookup id m.checks) m.statuses ≡ true
  pub fresh : (id : ℕ) → m.next ≤ id → lookup id m.checks ≡ none

-- NewManager starts with no status and no check.
pub new_manager-IsConsistent : IsConsistent new_manager
unfolding new_manager lookup
new_manager-IsConsistent = record {
  distinct = tt;
  owned = λ address. refl;
  held = λ id. refl;
  fresh = λ id p. refl;
}
