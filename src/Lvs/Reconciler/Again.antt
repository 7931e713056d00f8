-- ===== src/Lvs/Reconciler/Again.antt =====
-- A second Reconcile with the same configuration and the same health answers.
use ezlb.Shared.{◌≡◌, String, Bool, List, [], arith}
use ezlb.Shared.Eq.{string_eq}
use ezlb.Shared.GoMap.{GoMap, lookup}
use ezlb.Shared.Order.{RangeOrder}
use ezlb.Shared.Result.{ok}
use ezlb.Std.{Std}
use ezlb.Config.{ServiceConfig}
use ezlb.Snat.{SnatManager}
use ezlb.Lvs.Types.{ServiceKey, DestinationKey, service_key_eq}
use ezlb.Lvs.Handle.Fake.{FakeError, FakeHandle}
use ezlb.Lvs.Handle.Laws.{IsWellFormed}
use ezlb.Lvs.Reconciler.{DesiredService, World}
use ezlb.Lvs.Reconciler.Build.{build_desired_state}
use ezlb.Lvs.Reconciler.Converge.{IsReconciled}
use ezlb.Lvs.Reconciler.Desired.{AllCanonical}
use ezlb.Lvs.Reconciler.Fake.{fake_env}
use ezlb.Lvs.Reconciler.Reconcile.{reconcile-IsReconciled}
use ezlb.Lvs.Reconciler.Run.{reconcile}
use ezlb.Lvs.Reconciler.Services.Apply.{destination_at}

module _ (std : Std) where
  open std use {IP}

  module _ {N : Type 0} (dm : GoMap ServiceKey (DesiredService IP))
      (w w1 w2 : World (FakeHandle IP) N) (first : IsReconciled std dm w w1)
      (second : IsReconciled std dm w1 w2) where
    services_same : (j : ServiceKey) → lookup j w2.kernel.services ≡ lookup j w1.kernel.services
    services_same j = ground (arith, first.services j, second.services j, first.managed j)

    destinations_same :
        (j : ServiceKey) (dk : DestinationKey)
        → destination_at std j dk w2.kernel ≡ destination_at std j dk w1.kernel
    destinations_same j dk = ground (
      arith,
      first.destinations j dk,
      second.destinations j dk,
      first.managed j,
      first.well_formed.paired j,
    )

  module _ (o : RangeOrder) (is_healthy : String → Bool) {F N : Type 0} (sm : SnatManager F N)
      (configs : List ServiceConfig) where
    -- Reconcile is idempotent on the kernel: where buildDesiredState returns a map, every listen
    -- address is canonical and the handle is well formed, a second run with the same configuration
    -- and health answers leaves every service and every destination as the first run left it.
    pub reconcile-reconcile :
        (w : World (FakeHandle IP) N) (dm : GoMap ServiceKey (DesiredService IP))
        → build_desired_state std {E = FakeError} {F = F} is_healthy configs [] ≡ ok dm
        → AllCanonical std configs
        → IsWellFormed std w.kernel
        → (j : ServiceKey) (dk : DestinationKey)
        → let w1 = (reconcile std (fake_env std o is_healthy sm) configs w).0 in
          let w2 = (reconcile std (fake_env std o is_healthy sm) configs w1).0 in
          (lookup j w2.kernel.services ≡ lookup j w1.kernel.services)
          × (destination_at std j dk w2.kernel ≡ destination_at std j dk w1.kernel)
    reconcile-reconcile w dm built canonical wf j dk =
        let w1 = (reconcile std (fake_env std o is_healthy sm) configs w).0 in
        let w2 = (reconcile std (fake_env std o is_healthy sm) configs w1).0 in
        let first = reconcile-IsReconciled std o is_healthy sm configs w dm built canonical wf in
        let second =
          reconcile-IsReconciled std o is_healthy sm configs w1 dm built canonical
            first.well_formed in
        (services_same dm w w1 w2 first second j, destinations_same dm w w1 w2 first second j dk)
