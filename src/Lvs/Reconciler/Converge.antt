-- ===== src/Lvs/Reconciler/Converge.antt =====
-- The two service loops of Reconcile together, over the in-memory handle: what stands under every
-- key when they are done.
use ezlb.Shared.{
  ◌≡◌, ◌∙◌, String, Bool, true, false, not, ◌&&◌, ◌||◌, Option, none, some, [], arith,
}
use ezlb.Shared.GoMap.{GoMap, lookup, HasDistinctKeys}
use ezlb.Shared.Index.{
  IsKeyed, values, index_where-IsKeyed, index_where-HasDistinctKeys, lookup-index_where-values,
}
use ezlb.Shared.Order.{RangeOrder, lookup-arrange, HasDistinctKeys-arrange}
use ezlb.Shared.Tests.{if◌then◌else◌, is_some}
use ezlb.Std.{Std}
use ezlb.Snat.{SnatManager}
use ezlb.Lvs.Types.{
  Service, Destination, ServiceKey, DestinationKey, service_key_eq, service_key_from_ipvs,
}
use ezlb.Lvs.Handle.Fake.{FakeHandle, make_fake_service_key}
use ezlb.Lvs.Handle.Laws.{IsWellFormed}
use ezlb.Lvs.Reconciler.{DesiredService, World, is_managed}
use ezlb.Lvs.Reconciler.Destinations.Converge.{destination_after}
use ezlb.Lvs.Reconciler.Fake.{fake_env}
use ezlb.Lvs.Reconciler.Services.{index_services}
use ezlb.Lvs.Reconciler.Services.Apply.{destination_at, service_settled, desired_at}
use ezlb.Lvs.Reconciler.Services.ApplyAll.{kernel_key, apply_services_ok}
use ezlb.Lvs.Reconciler.Services.RemoveAll.{remove_services_ok}
use ezlb.Lvs.Reconciler.Run.{reconcile_services, is_relevant}

module _ (std : Std) where
  open std use {IP}

  -- The service left under a key: the desired one settled against the actual; where none is desired,
  -- nothing if the key was managed, and else what was there.
  abbrev pub service_after :
      Option (DesiredService IP) → Bool → Option (Service IP) → Option (Service IP)
  service_after (some d) managed actual = some (service_settled std d.service actual)
  service_after none true actual = none
  service_after none false actual = actual

  abbrev pub destinations_left :
      Option (DesiredService IP)
      → Bool
      → DestinationKey
      → Option (Destination IP)
      → Option (Destination IP)
  destinations_left (some d) managed dk actual = destination_after std (desired_at std d dk) actual
  destinations_left none true dk actual = none
  destinations_left none false dk actual = actual

  module _ {N : Type 0} where
    -- What Reconcile leaves of `w`, for the desired map `dm`: the services, their destinations, and
    -- which keys are managed.
    pub record IsReconciled (dm : GoMap ServiceKey (DesiredService IP))
        (w w' : World (FakeHandle IP) N) : Type 0 where
      pub well_formed : IsWellFormed std w'.kernel
      pub services :
          (j : ServiceKey)
          → lookup j w'.kernel.services
            ≡ service_after (lookup j dm) (is_managed j w.managed) (lookup j w.kernel.services)
      pub destinations :
          (j : ServiceKey) (dk : DestinationKey)
          → destination_at std j dk w'.kernel
            ≡ destinations_left
                (lookup j dm)
                (is_managed j w.managed)
                dk
                (destination_at std j dk w.kernel)
      pub managed :
          (j : ServiceKey)
          → is_managed j w'.managed ≡ (
              is_some (lookup j dm)
              || is_managed j w.managed && not (is_some (lookup j w.kernel.services)))

    module _ (o : RangeOrder) (is_healthy : String → Bool) {F : Type 0} (sm : SnatManager F N)
        (dm : GoMap ServiceKey (DesiredService IP)) (w : World (FakeHandle IP) N)
        (distinct : HasDistinctKeys dm) (keyed : IsKeyed (kernel_key std) dm)
        (wf : IsWellFormed std w.kernel) where
      abbrev pub relevant : ServiceKey → Bool
      relevant = is_relevant std (fake_env std o is_healthy sm) w dm

      abbrev pub actual_map : GoMap ServiceKey (Service IP)
      actual_map = index_services std relevant (values (o.arrange w.kernel.services))

      lookup-actual_map :
          (j : ServiceKey)
          → lookup j actual_map ≡ (if relevant j then lookup j w.kernel.services else none)
      unfolding index_services service_key_from_ipvs make_fake_service_key lookup
      lookup-actual_map j =
          let same = lookup-arrange o w.kernel.services wf.distinct in
          lookup-index_where-values relevant (service_key_from_ipvs std)
            (o.arrange w.kernel.services) [] j
            (HasDistinctKeys-arrange o w.kernel.services wf.distinct)
            (λ i s p. wf.keyed i s (ground (arith, same i)))
          ∙ ground (arith, same j)

      actual_map-HasDistinctKeys : HasDistinctKeys actual_map
      unfolding index_services
      actual_map-HasDistinctKeys =
          index_where-HasDistinctKeys relevant (service_key_from_ipvs std)
            (values (o.arrange w.kernel.services)) [] tt

      actual_map-IsKeyed : IsKeyed (make_fake_service_key std) actual_map
      unfolding index_services service_key_from_ipvs make_fake_service_key lookup
      actual_map-IsKeyed =
          index_where-IsKeyed relevant (service_key_from_ipvs std)
            (values (o.arrange w.kernel.services)) [] (λ j v p. absurd (cc))

      pub reconcile_services_ok :
          let r = reconcile_services std (fake_env std o is_healthy sm) dm actual_map w in
          (r.1 ≡ []) × (r.0.snat ≡ w.snat) × IsReconciled dm w r.0
      unfolding reconcile_services is_managed
      reconcile_services_ok =
          let same = lookup-arrange o dm distinct in
          let same' = lookup-arrange o actual_map actual_map-HasDistinctKeys in
          let (no_errors, applied) =
            apply_services_ok std o is_healthy sm actual_map (o.arrange dm) w wf
              (HasDistinctKeys-arrange o dm distinct) (λ j d p. keyed j d (ground (arith, same j)))
              (λ j d p. ground (arith, same j, p, lookup-actual_map j)) in
          let (no_errors', dropped) =
            remove_services_ok std o is_healthy sm dm (o.arrange actual_map) _ applied.well_formed
              (HasDistinctKeys-arrange o actual_map actual_map-HasDistinctKeys)
              (λ j s p. actual_map-IsKeyed j s (ground (arith, same' j)))
              (λ j s p gone. (
                s,
                ground (arith, same j, same' j, gone, p, applied.services j, lookup-actual_map j),
              )) in
          (
            cc (no_errors, no_errors'),
            dropped.snat ∙ applied.snat,
            record {
              well_formed = dropped.well_formed;
              services = λ j. ground (
                arith,
                dropped.services j,
                applied.services j,
                same j,
                same' j,
                lookup-actual_map j,
              );
              destinations = λ j dk. ground (
                arith,
                dropped.destinations j dk,
                applied.destinations j dk,
                same j,
                same' j,
                lookup-actual_map j,
                wf.paired j,
              );
              managed = λ j. ground (
                arith,
                dropped.managed j,
                applied.managed j,
                same j,
                same' j,
                lookup-actual_map j,
              );
            },
          )
