-- ===== src/Snat/Fake.antt =====
-- pkg/snat/manager_fake.go: the in-memory rule manager. `range` over a map goes in the order that
-- `o` arranges, and a `range` that deletes from its own map visits each entry once.
pub mod Loops
pub mod Reconcile
mod Tests
use ezlb.Shared.{String, true, none, some, List, [], ◌∷◌}
use ezlb.Shared.Eq.{◌==◌, string_eq}
use ezlb.Shared.GoMap.{GoMap, lookup, insert, delete}
use ezlb.Shared.Index.{index_where}
use ezlb.Shared.Order.{RangeOrder}
use ezlb.Shared.Tests.{if◌then◌else◌}
use ezlb.Snat.{SnatRule, ForwardRule, snat_rule_key, forward_rule_key, SnatManager}

pub record FakeManager : Type 0 where
  pub managed : GoMap String SnatRule
  pub managed_forward : GoMap String ForwardRule

-- NewManager
unfoldable pub new_manager : FakeManager
new_manager = record { managed = []; managed_forward = [] }

-- Deletes the entries of `m` that the keys of `visited` name and `desired` lacks.
unfoldable pub remove_stale {ℓ} :
    {R : Type ℓ} → GoMap String R → GoMap String R → GoMap String R → GoMap String R
remove_stale desired [] m = m
remove_stale desired ((key, r) ∷ visited) m =
    remove_stale desired visited (elim (lookup key desired) [ none ↦ delete key m | some _ ↦ m ])

-- if exists && existing.SnatIP == rule.SnatIP { continue }; m.managed[key] = rule
unfoldable pub add_or_update : String → SnatRule → GoMap String SnatRule → GoMap String SnatRule
add_or_update key rule m = elim (lookup key m) [
  | none ↦ insert key rule m
  | some existing ↦ if existing.snat_ip == rule.snat_ip then m else insert key rule m
]

-- if exists { continue }; m.managedForward[key] = rule
unfoldable pub add_missing :
    String → ForwardRule → GoMap String ForwardRule → GoMap String ForwardRule
add_missing key rule m = elim (lookup key m) [ none ↦ insert key rule m | some _ ↦ m ]

unfoldable pub add_each {ℓ} :
    {R : Type ℓ}
    → (String → R → GoMap String R → GoMap String R)
    → GoMap String R
    → GoMap String R
    → GoMap String R
add_each add [] m = m
add_each add ((key, r) ∷ desired) m = add_each add desired (add key r m)

module _ (o : RangeOrder) where
  unfoldable pub reconcile : List SnatRule → FakeManager → FakeManager
  reconcile desired m =
      let desired_map = index_where (λ k. true) snat_rule_key desired [] in
      let kept = remove_stale desired_map (o.arrange m.managed) m.managed in
      record m { managed = add_each add_or_update (o.arrange desired_map) kept }

  unfoldable pub reconcile_forward : List ForwardRule → FakeManager → FakeManager
  reconcile_forward desired m =
      let desired_map = index_where (λ k. true) forward_rule_key desired [] in
      let kept = remove_stale desired_map (o.arrange m.managed_forward) m.managed_forward in
      record m { managed_forward = add_each add_missing (o.arrange desired_map) kept }

  unfoldable pub cleanup : FakeManager → FakeManager
  cleanup m = record { managed = []; managed_forward = [] }

  -- FakeManager as a snat.Manager; none of its methods returns an error.
  abbrev pub fake_manager : {F : Type 0} → SnatManager F FakeManager
  fake_manager = record {
    reconcile = λ desired m. (reconcile desired m, none);
    reconcile_forward = λ desired m. (reconcile_forward desired m, none);
    cleanup = λ m. (cleanup m, none);
  }
