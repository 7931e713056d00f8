-- ===== src/Server/Settled.antt =====
-- What the server owes the kernel: the services of the current configuration, with the destinations
-- that the health checks allow.
use ezlb.Shared.{◌≡◌, refl, ◌∙◌, ap, inl, inr, String, Bool, true, Option, none, some, [], arith}
use ezlb.Shared.Eq.{◌==◌, string_eq, ==_iff}
use ezlb.Shared.Int.{ℤ, int_eq}
use ezlb.Shared.GoMap.{GoMap, lookup}
use ezlb.Shared.Order.{RangeOrder}
use ezlb.Shared.Result.{ok}
use ezlb.Shared.Tests.{Bool-cases}
use ezlb.Std.{Std}
use ezlb.Config.{Config}
use ezlb.Config.Validate.{validate}
use ezlb.Healthcheck
use ezlb.Lvs.Types.{Service, Destination, ServiceKey, DestinationKey, service_key_eq}
use ezlb.Lvs.Handle.Fake.{FakeHandle, FakeError, fake_handle}
use ezlb.Lvs.Handle.Laws.{IsWellFormed}
use ezlb.Lvs.Reconciler.{DesiredService, World, is_managed}
use ezlb.Lvs.Reconciler.Build.{build_desired_state}
use ezlb.Lvs.Reconciler.Converge.{IsReconciled, service_after, destinations_left}
use ezlb.Lvs.Reconciler.Destinations.Converge.{destination_after}
use ezlb.Lvs.Reconciler.Desired.{AllCanonical}
use ezlb.Lvs.Reconciler.Reconcile.{reconcile-IsReconciled}
use ezlb.Lvs.Reconciler.Services.Apply.{destination_at, desired_at, service_settled}
use ezlb.Lvs.Reconciler.Validated.{HasNumericPorts, validate-build_desired_state}
use ezlb.Snat.{SnatManager}
use ezlb.Server.{Server, Metrics, reconcile}

module _ (std : Std) where
  open std use {IP}

  -- Validate has returned the configuration, its ports are numbers, and the hosts of its listen
  -- addresses are written as net.IP prints them.
  abbrev pub IsUsable : Config → Type 0
  IsUsable cfg =
      (written : Config) × (validate std written ≡ ok cfg)
      × HasNumericPorts std written.services
      × AllCanonical std cfg.services

  abbrev pub weight_of : Option (Destination IP) → Option ℤ
  weight_of none = none
  weight_of (some d) = some d.weight

  sched_name-service_settled :
      (desired : Service IP) (actual : Option (Service IP))
      → (service_settled std desired actual).sched_name ≡ desired.sched_name
  sched_name-service_settled desired none = refl
  sched_name-service_settled desired (some actual) =
      elim (Bool-cases (actual.sched_name == desired.sched_name)) [
        | inl same ↦ rw same ((==_iff {A = String} actual.sched_name desired.sched_name).0 same)
        | inr other ↦ rw other refl
      ]

  weight_of-destination_after :
      (desired actual : Option (Destination IP))
      → weight_of (destination_after std desired actual) ≡ weight_of desired
  weight_of-destination_after none actual = refl
  weight_of-destination_after (some desired) none = refl
  weight_of-destination_after (some desired) (some actual) =
      elim (Bool-cases (actual.weight == desired.weight)) [
        | inl same ↦ rw same (ap some ((==_iff {A = ℤ} actual.weight desired.weight).0 same))
        | inr other ↦ rw other refl
      ]

  module _ {N : Type 0} where
    -- Each desired service is in the kernel with its scheduler, and has the desired destinations with
    -- their weights and no other; and no service that is managed but not desired is in the kernel.
    pub record IsServing (dm : GoMap ServiceKey (DesiredService IP)) (w : World (FakeHandle IP) N)
        : Type 0 where
      pub services :
          (j : ServiceKey) (d : DesiredService IP)
          → lookup j dm ≡ some d
          → (actual : Service IP) × (lookup j w.kernel.services ≡ some actual)
            × (actual.sched_name ≡ d.service.sched_name)
      pub destinations :
          (j : ServiceKey) (d : DesiredService IP) (dk : DestinationKey)
          → lookup j dm ≡ some d
          → weight_of (destination_at std j dk w.kernel) ≡ weight_of (desired_at std d dk)
      pub dropped :
          (j : ServiceKey)
          → lookup j dm ≡ none
          → is_managed j w.managed ≡ true
          → lookup j w.kernel.services ≡ none

    IsReconciled-IsServing :
        (dm : GoMap ServiceKey (DesiredService IP)) (w w' : World (FakeHandle IP) N)
        → IsReconciled std dm w w'
        → IsServing dm w'
    IsReconciled-IsServing dm w w' r = record {
      services = λ j d p. (
        service_settled std d.service (lookup j w.kernel.services),
        r.services j
            ∙ ap (λ e. service_after std e (is_managed j w.managed) (lookup j w.kernel.services)) p,
        sched_name-service_settled d.service (lookup j w.kernel.services),
      );
      destinations = λ j d dk p.
          ap weight_of (
            r.destinations j dk
            ∙ ap
                (λ e.
                  destinations_left std e (is_managed j w.managed) dk
                    (destination_at std j dk w.kernel))
                p)
          ∙ weight_of-destination_after (desired_at std d dk) (destination_at std j dk w.kernel);
      dropped = λ j p q. ground (arith, p, q, r.services j, r.managed j);
    }

module _ (std : Std) (o : RangeOrder) {F V N M : Type 0} (sm : SnatManager F N)
    (mx : Metrics M) where
  open std use {IP}

  abbrev pub healthy : Server V (FakeHandle IP) N M → String → Bool
  healthy s = λ address. Healthcheck.is_healthy address s.health_mgr

  -- The kernel serves what is desired of the configuration with the answers of the health checks.
  abbrev pub Serves : Config → Server V (FakeHandle IP) N M → Type 0
  Serves cfg s =
      (dm : GoMap ServiceKey (DesiredService IP)) × (build_desired_state std {E = FakeError} {F = F}
          (healthy s) cfg.services []
        ≡ ok dm)
      × IsServing std dm s.world

  pub reconcile-Serves :
      (cfg : Config) (s : Server V (FakeHandle IP) N M)
      → IsUsable std cfg
      → IsWellFormed std s.world.kernel
      → let s' = reconcile std (fake_handle std o) sm mx o cfg.services s in
        IsWellFormed std s'.world.kernel × Serves cfg s'
  unfolding reconcile
  reconcile-Serves cfg s (written, p, numeric, canonical) wf =
      let (dm, built) =
        validate-build_desired_state std {E = FakeError} {F = F} (healthy s) written cfg p
          numeric in
      let r =
        reconcile-IsReconciled std o (healthy s) sm cfg.services s.world dm built canonical wf in
      (r.well_formed, (dm, built, IsReconciled-IsServing std dm s.world _ r))
