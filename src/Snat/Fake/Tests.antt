-- ===== src/Snat/Fake/Tests.antt =====
-- The in-memory rule manager on two backends, one of whose rules changes its SNAT address.
use ezlb.Shared.{◌≡◌, refl, String, List, [], ◌∷◌}
use ezlb.Shared.Eq.{string_eq}
use ezlb.Shared.GoMap.{lookup, HasDistinctKeys}
use ezlb.Std.Sample.{in_order}
use ezlb.Snat.{SnatRule, ForwardRule}
use ezlb.Snat.Fake.{FakeManager, reconcile, reconcile_forward}
use ezlb.Snat.Fake.Reconcile.{
  desired_rules, desired_forward, rule_after, forward_after, reconcile-rule_after,
  reconcile_forward-forward_after,
}

abbrev rule : String → String → SnatRule
rule ip snat_ip = record { backend_ip = ip; protocol = "tcp"; snat_ip = snat_ip; backend_port = 80 }

abbrev forward : String → ForwardRule
forward ip = record { backend_ip = ip; protocol = "tcp"; backend_port = 80 }

abbrev start : FakeManager
start = record {
  managed = ("10.0.1.1:80/tcp", rule "10.0.1.1" "") ∷ ("10.0.1.2:80/tcp", rule "10.0.1.2" "") ∷ [];
  managed_forward = ("10.0.1.2:80/tcp", forward "10.0.1.2") ∷ [];
}

managed-HasDistinctKeys : HasDistinctKeys start.managed
unfolding lookup
managed-HasDistinctKeys = (refl, (refl, tt))

managed_forward-HasDistinctKeys : HasDistinctKeys start.managed_forward
unfolding lookup
managed_forward-HasDistinctKeys = (refl, tt)

abbrev wanted : List SnatRule
wanted = rule "10.0.1.1" "192.0.2.1" ∷ []

reconcile-rule_after_example :
    let m' = reconcile in_order wanted start in
    (lookup "10.0.1.1:80/tcp" m'.managed
      ≡ rule_after
          (lookup "10.0.1.1:80/tcp" (desired_rules wanted))
          (lookup "10.0.1.1:80/tcp" start.managed))
    × (m'.managed_forward ≡ start.managed_forward)
reconcile-rule_after_example =
    reconcile-rule_after in_order wanted start managed-HasDistinctKeys "10.0.1.1:80/tcp"

reconcile_forward-forward_after_example :
    let m' = reconcile_forward in_order (forward "10.0.1.1" ∷ []) start in
    (lookup "10.0.1.1:80/tcp" m'.managed_forward
      ≡ forward_after
          (lookup "10.0.1.1:80/tcp" (desired_forward (forward "10.0.1.1" ∷ [])))
          (lookup "10.0.1.1:80/tcp" start.managed_forward))
    × (m'.managed ≡ start.managed)
reconcile_forward-forward_after_example =
    reconcile_forward-forward_after in_order (forward "10.0.1.1" ∷ []) start
      managed_forward-HasDistinctKeys "10.0.1.1:80/tcp"
