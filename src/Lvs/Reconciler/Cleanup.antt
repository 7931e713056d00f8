-- ===== src/Lvs/Reconciler/Cleanup.antt =====
-- Cleanup, over the in-memory handle and any SNAT manager.
use ezlb.Shared.{◌≡◌, refl, ◌∙◌, String, Bool, true, none, [], arith}
use ezlb.Shared.GoMap.{GoMap, lookup, HasDistinctKeys}
use ezlb.Shared.Index.{IsKeyed, values, index_where-IsKeyed, lookup-index_where-values}
use ezlb.Shared.Order.{RangeOrder, lookup-arrange, HasDistinctKeys-arrange}
use ezlb.Shared.Result.{for_each}
use ezlb.Shared.Tests.{is_some}
use ezlb.Std.{Std}
use ezlb.Snat.{SnatManager}
use ezlb.Lvs.Types.{Service, ServiceKey, service_key_eq, service_key_from_ipvs}
use ezlb.Lvs.Handle.Fake.{FakeHandle, make_fake_service_key}
use ezlb.Lvs.Handle.Laws.{IsWellFormed}
use ezlb.Lvs.Reconciler.{World}
use ezlb.Lvs.Reconciler.Fake.{fake_env}
use ezlb.Lvs.Reconciler.Reconcile.{get_services_ok}
use ezlb.Lvs.Reconciler.Run.{cleanup, join}
use ezlb.Lvs.Reconciler.Services.{index_services, cleanup_service}
use ezlb.Lvs.Reconciler.Services.Remove.{IsDropped}
use ezlb.Lvs.Reconciler.Services.RemoveAll.{cleanup_services_ok}

module _ (std : Std) (o : RangeOrder) (is_healthy : String → Bool) {F N : Type 0}
    (sm : SnatManager F N) (w : World (FakeHandle std.IP) N) (wf : IsWellFormed std w.kernel)
    (distinct : HasDistinctKeys w.managed) where
  abbrev every_service : GoMap ServiceKey (Service std.IP)
  every_service = index_services std (λ key. true) (values (o.arrange w.kernel.services))

  lookup-every_service : (j : ServiceKey) → lookup j every_service ≡ lookup j w.kernel.services
  unfolding index_services service_key_from_ipvs make_fake_service_key lookup
  lookup-every_service j =
      let same = lookup-arrange o w.kernel.services wf.distinct in
      lookup-index_where-values (λ k. true) (service_key_from_ipvs std)
        (o.arrange w.kernel.services) [] j (HasDistinctKeys-arrange o w.kernel.services wf.distinct)
        (λ i s p. wf.keyed i s (ground (arith, same i)))
      ∙ ground (arith, same j)

  every_service-IsKeyed : IsKeyed (make_fake_service_key std) every_service
  unfolding index_services service_key_from_ipvs make_fake_service_key lookup
  every_service-IsKeyed =
      index_where-IsKeyed (λ k. true) (service_key_from_ipvs std)
        (values (o.arrange w.kernel.services)) [] (λ j v p. absurd (cc))

  loop_ok :
      let r =
        for_each
          (cleanup_service std (fake_env std o is_healthy sm) every_service)
          (o.arrange w.managed)
          w in
      (r.1 ≡ []) × IsDropped std (λ j. is_some (lookup j (o.arrange w.managed))) w r.0
  loop_ok =
      cleanup_services_ok std o is_healthy sm every_service (o.arrange w.managed) w wf
        (HasDistinctKeys-arrange o w.managed distinct) every_service-IsKeyed
        (λ j b p. lookup-every_service j)

  cleanup_eq :
      let r =
        for_each
          (cleanup_service std (fake_env std o is_healthy sm) every_service)
          (o.arrange w.managed)
          w in
      cleanup std (fake_env std o is_healthy sm) w ≡ (r.0, join r.1)
  unfolding cleanup
  cleanup_eq = rw (get_services_ok std o w.kernel, cleanup)

  -- Where the handle is well formed and the managed map has distinct keys, Cleanup returns no error,
  -- deletes exactly the managed services with their destinations, and manages nothing afterwards.
  pub cleanup-IsDropped :
      let r = cleanup std (fake_env std o is_healthy sm) w in
      (r.1 ≡ none)
      × IsDropped std (λ j. is_some (lookup j w.managed)) w r.0
      × ((j : ServiceKey) → lookup j r.0.managed ≡ none)
  cleanup-IsDropped =
      let (no_errors, dropped) = loop_ok in
      let same = lookup-arrange o w.managed distinct in
      rw cleanup_eq (
        rw no_errors refl,
        record {
          well_formed = dropped.well_formed;
          services = λ j. rw (← same j) (dropped.services j);
          destinations = λ j dk. rw (← same j) (dropped.destinations j dk);
          managed = λ j. ground (arith, dropped.managed j, same j);
          snat = dropped.snat;
        },
        λ j. ground (arith, dropped.managed j, same j),
      )
