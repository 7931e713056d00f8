-- ===== src/Lvs/Reconciler/Services/Apply.antt =====
-- The loop over the desired services, over the in-memory handle: what it leaves under every key.
use mathlib.Core.Path.{subst}
use ezlb.Shared.{◌≡◌, refl, ◌∙◌, inl, inr, ap, String, Bool, true, Option, none, some, [], arith}
use ezlb.Shared.Eq.{◌==◌, ==_iff, string_eq}
use ezlb.Shared.GoMap.{GoMap, lookup, insert, lookup-nil, lookup-insert_self, lookup-insert}
use ezlb.Shared.Order.{RangeOrder}
use ezlb.Shared.Tests.{if◌then◌else◌, is_some, is_some-some, Bool-cases, Option-cases}
use ezlb.Std.{Std}
use ezlb.Snat.{SnatManager}
use ezlb.Lvs.Types.{
  Service, Destination, ServiceKey, DestinationKey, service_key_eq, destination_key_eq,
}
use ezlb.Lvs.Handle.Fake.{FakeError, FakeHandle, fake_handle, make_fake_service_key}
use ezlb.Lvs.Handle.Effects.{Destinations, new_service_fresh, update_service_found}
use ezlb.Lvs.Handle.Laws.{
  IsWellFormed, put_map, new_service-IsWellFormed, update_service-IsWellFormed,
}
use ezlb.Lvs.Manager
use ezlb.Lvs.Reconciler.{DesiredService, World, Env}
use ezlb.Lvs.Reconciler.Destinations.{index_destinations}
use ezlb.Lvs.Reconciler.Destinations.Converge.{
  destination_after, destinations_after, reconcile_destinations_ok, lookup-destinations_after,
  destinations_after-IsDestinationMap,
}
use ezlb.Lvs.Reconciler.Fake.{fake_env}
use ezlb.Lvs.Reconciler.Services.{then_destinations, create_desired, update_desired, apply_service}

abbrev find_in {ℓ} : {V : Type ℓ} → DestinationKey → Option (GoMap DestinationKey V) → Option V
find_in dk none = none
find_in dk (some m) = lookup dk m

module _ (std : Std) where
  open std use {IP}

  -- The destination under key `dk` of the service under key `j`.
  abbrev pub destination_at : ServiceKey → DestinationKey → FakeHandle IP → Option (Destination IP)
  destination_at j dk h = find_in dk (lookup j h.destinations)

  -- A desired service keeps an actual one of the same scheduler, and else replaces it.
  abbrev pub service_settled : Service IP → Option (Service IP) → Service IP
  service_settled desired none = desired
  service_settled desired (some actual) =
      if actual.sched_name == desired.sched_name then actual else desired

  -- The desired destination of a service.
  abbrev pub desired_at : DesiredService IP → DestinationKey → Option (Destination IP)
  desired_at d dk = lookup dk (index_destinations std d.destinations)

  module _ {N : Type 0} where
    -- What one round leaves: the service and its destinations settled, all else as it was.
    pub record IsApplied (key : ServiceKey) (d : DesiredService IP) (w w' : World (FakeHandle IP) N)
        : Type 0 where
      pub well_formed : IsWellFormed std w'.kernel
      pub services :
          (j : ServiceKey)
          → lookup j w'.kernel.services ≡ (
              if key == j
              then some (service_settled d.service (lookup j w.kernel.services))
              else lookup j w.kernel.services)
      pub destinations :
          (j : ServiceKey) (dk : DestinationKey)
          → destination_at j dk w'.kernel ≡ (
              if key == j
              then destination_after std (desired_at d dk) (destination_at j dk w.kernel)
              else destination_at j dk w.kernel)
      pub managed :
          (j : ServiceKey)
          → lookup j w'.managed ≡ (if key == j then some true else lookup j w.managed)
      pub snat : w'.snat ≡ w.snat

    module _ (o : RangeOrder) (is_healthy : String → Bool) {F : Type 0} (sm : SnatManager F N) where
      -- Phase 4 of one service, from a state `w1` in which the service itself is settled.
      IsApplied-settled :
          (d : DesiredService IP) (w w1 : World (FakeHandle IP) N) (m : Destinations std)
          → IsWellFormed std w1.kernel
          → lookup (make_fake_service_key std d.service) w1.kernel.destinations ≡ some m
          → let key = make_fake_service_key std d.service in
            ((j : ServiceKey)
              → lookup j w1.kernel.services ≡ (
                  if key == j
                  then some (service_settled d.service (lookup j w.kernel.services))
                  else lookup j w.kernel.services))
            → ((j : ServiceKey) (dk : DestinationKey)
                → destination_at j dk w1.kernel ≡ destination_at j dk w.kernel)
            → ((j : ServiceKey)
                → lookup j w1.managed ≡ (if key == j then some true else lookup j w.managed))
            → w1.snat ≡ w.snat
            → let r = then_destinations std (fake_env std o is_healthy sm) d w1 in
              (r.1 ≡ none) × IsApplied key d w r.0
      unfolding then_destinations
      IsApplied-settled d w w1 m wf found services same managed snat =
          let key = make_fake_service_key std d.service in
          let v = wf.each_map key m found in
          let after = destinations_after std o is_healthy sm d w1.kernel m found v in
          let after_at = lookup-destinations_after std o is_healthy sm d w1.kernel m found v in
          rw (reconcile_destinations_ok std o is_healthy sm d w1.kernel m found v) (
            refl,
            record {
              well_formed =
                  put_map std w1.kernel wf key after (ap is_some found)
                    (destinations_after-IsDestinationMap std o is_healthy sm d w1.kernel m found v);
              services = services;
              destinations = λ j dk. ground (
                arith,
                lookup-insert key j after w1.kernel.destinations,
                ==_iff {A = ServiceKey} key j,
                found,
                after_at dk,
                same j dk,
              );
              managed = managed;
              snat = snat;
            },
          )

      module _ (d : DesiredService IP) (w : World (FakeHandle IP) N)
          (wf : IsWellFormed std w.kernel) where
        abbrev key : ServiceKey
        key = make_fake_service_key std d.service

        abbrev env : Env std FakeError F (FakeHandle IP) N
        env = fake_env std o is_healthy sm

        managed_insert :
            (j : ServiceKey)
            → lookup j (insert key true w.managed)
              ≡ (if key == j then some true else lookup j w.managed)
        managed_insert j = lookup-insert key j true w.managed

        created :
            lookup key w.kernel.services ≡ none
            → Manager.create_service (fake_handle std o) d.service w.kernel ≡ (
              record {
                services = insert key d.service w.kernel.services;
                destinations = insert key [] w.kernel.destinations;
              },
              none,
            )
        unfolding Manager.create_service
        created fresh = rw (new_service_fresh std d.service w.kernel fresh)

        updated :
            (actual : Service IP)
            → lookup key w.kernel.services ≡ some actual
            → Manager.update_service (fake_handle std o) d.service w.kernel
              ≡ (record w.kernel { services = insert key d.service w.kernel.services }, none)
        unfolding Manager.update_service
        updated actual there = rw (update_service_found std d.service w.kernel there)

        create_desired_ok :
            lookup key w.kernel.services ≡ none
            → let r = create_desired std env key d w in (r.1 ≡ none) × IsApplied key d w r.0
        unfolding create_desired
        create_desired_ok fresh =
            let wf' =
              subst (λ r. IsWellFormed std r.0) (new_service_fresh std d.service w.kernel fresh)
                (new_service-IsWellFormed std w.kernel wf d.service) in
            rw (created fresh, create_desired)
              (rw (created fresh) (
                IsApplied-settled d w _ [] wf' (lookup-insert_self key [] w.kernel.destinations)
                  (λ j. ground (
                    arith,
                    lookup-insert key j d.service w.kernel.services,
                    ==_iff {A = ServiceKey} key j,
                    fresh,
                  ))
                  (λ j dk. ground (
                    arith,
                    lookup-insert {V = Destinations std} key j [] w.kernel.destinations,
                    ==_iff {A = ServiceKey} key j,
                    fresh,
                    wf.paired key,
                    lookup-nil {V = Destination IP} dk,
                  ))
                  managed_insert refl))

        update_desired_ok :
            (actual : Service IP)
            → lookup key w.kernel.services ≡ some actual
            → let r = update_desired std env key actual d w in (r.1 ≡ none) × IsApplied key d w r.0
        unfolding update_desired
        update_desired_ok actual there =
            let wf' =
              subst (λ r. IsWellFormed std r.0) (update_service_found std d.service w.kernel there)
                (update_service-IsWellFormed std w.kernel wf d.service) in
            let (m, found) =
              is_some-some (lookup key w.kernel.destinations)
                (ground (arith, wf.paired key, there)) in
            elim (Bool-cases (actual.sched_name == d.service.sched_name)) [
              | inl equal ↦
                  rw (updated actual there, update_desired)
                    (rw equal (
                      IsApplied-settled d w _ m wf found
                        (λ j. ground (arith, ==_iff {A = ServiceKey} key j, there, equal))
                        (λ j dk. refl) managed_insert refl))
              | inr differ ↦
                  rw (updated actual there, update_desired)
                    (rw differ (
                      rw (updated actual there) (
                        IsApplied-settled d w _ m wf' found
                          (λ j. ground (
                            arith,
                            lookup-insert key j d.service w.kernel.services,
                            ==_iff {A = ServiceKey} key j,
                            there,
                            differ,
                          ))
                          (λ j dk. refl) managed_insert refl)))
            ]

      -- One round of the loop, where `actual_map` shows what the kernel has under the key.
      pub apply_service_ok :
          (actual_map : GoMap ServiceKey (Service IP)) (d : DesiredService IP)
          (w : World (FakeHandle IP) N)
          → IsWellFormed std w.kernel
          → let key = make_fake_service_key std d.service in
            lookup key actual_map ≡ lookup key w.kernel.services
            → let r = apply_service std (fake_env std o is_healthy sm) actual_map (key, d) w in
              (r.1 ≡ none) × IsApplied key d w r.0
      unfolding apply_service
      apply_service_ok actual_map d w wf same =
          let key = make_fake_service_key std d.service in
          elim (Option-cases (lookup key w.kernel.services)) [
            | inl fresh ↦ rw (same ∙ fresh, apply_service) (create_desired_ok d w wf fresh)
            | inr (actual, there) ↦
                rw (same ∙ there, apply_service) (update_desired_ok d w wf actual there)
          ]
