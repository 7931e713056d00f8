-- ===== src/Lvs/Reconciler/SnatTests.antt =====
-- The rules of the sample configuration, whose service has full_nat and two backends, one unhealthy.
use mathlib.Core.List.{Memᴰ}
use ezlb.Shared.{◌≡◌, refl, String, Bool, not, List, [], ◌∷◌, map}
use ezlb.Shared.Eq.{string_eq}
use ezlb.Shared.GoMap.{lookup}
use ezlb.Shared.Result.{ok}
use ezlb.Std.Sample.{sample_std, in_order}
use ezlb.Config.Sample.{web}
use ezlb.Snat.{SnatRule, ForwardRule}
use ezlb.Snat.Fake.{new_manager, fake_manager}
use ezlb.Snat.Fake.Reconcile.{desired_rules, desired_forward, rule_after, forward_after}
use ezlb.Lvs.Reconciler.Build.{snat_services}
use ezlb.Lvs.Reconciler.Fake.{fake_env}
use ezlb.Lvs.Reconciler.Run.{reconcile}
use ezlb.Lvs.Reconciler.Sample.{start, kernel-IsWellFormed}
use ezlb.Lvs.Reconciler.SnatRules.{IsWanted, reconcile-snat_rules, snat_services-IsWanted}
use ezlb.Lvs.Reconciler.Tests.{is_up, desired, desired_built, web-AllCanonical}

abbrev rules : SnatRule × ForwardRule
rules = (
  record { backend_ip = "10.0.1.1"; protocol = "tcp"; snat_ip = ""; backend_port = 8080 },
  record { backend_ip = "10.0.1.1"; protocol = "tcp"; backend_port = 8080 },
)

collected : snat_services sample_std {F = Unit {0}} is_up (web ∷ []) ≡ ok (rules ∷ [])
unfolding snat_services ezlb.Lvs.Reconciler.Build.snat_backends ezlb.Lvs.Reconciler.Build.snat_entry
    ezlb.Lvs.Reconciler.Build.is_skipped ezlb.Shared.Int.to_uint16
    ezlb.Config.HealthCheck.is_enabled
collected = refl

reconcile-snat_rules_example :
    let n =
      (reconcile sample_std
        (fake_env sample_std in_order is_up (fake_manager in_order {F = Unit {0}}))
        (web ∷ [])
        start).0.snat in
    (lookup "10.0.1.1:8080/tcp" n.managed
      ≡ rule_after
          (lookup "10.0.1.1:8080/tcp" (desired_rules (rules.0 ∷ [])))
          (lookup "10.0.1.1:8080/tcp" start.snat.managed))
    × (lookup "10.0.1.1:8080/tcp" n.managed_forward
        ≡ forward_after
            (lookup "10.0.1.1:8080/tcp" (desired_forward (rules.1 ∷ [])))
            (lookup "10.0.1.1:8080/tcp" start.snat.managed_forward))
unfolding new_manager
reconcile-snat_rules_example =
    reconcile-snat_rules sample_std in_order is_up {F = Unit {0}} (web ∷ []) start desired
      (rules ∷ []) desired_built web-AllCanonical kernel-IsWellFormed tt tt collected
      "10.0.1.1:8080/tcp"

snat_services-IsWanted_example : IsWanted sample_std is_up (Unit {0}) (web ∷ []) rules
snat_services-IsWanted_example =
    snat_services-IsWanted sample_std is_up (Unit {0}) (web ∷ []) (rules ∷ []) collected rules
      (Memᴰ.head refl)
