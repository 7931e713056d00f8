-- ===== src/Lvs/Reconciler/Destinations/Converge.antt =====
-- reconcileDestinations over the in-memory handle, as a whole.
use ezlb.Shared.{◌≡◌, refl, ◌∙◌, String, Bool, true, Option, none, some, List, [], ◌∷◌, map, arith}
use ezlb.Shared.GoMap.{lookup, insert-insert, lookup-insert_self}
use ezlb.Shared.Index.{
  values, index_where-IsKeyed, index_where-HasDistinctKeys, lookup-index_where-values,
}
use ezlb.Shared.Int.{int_eq}
use ezlb.Shared.Order.{RangeOrder, lookup-arrange, HasDistinctKeys-arrange}
use ezlb.Shared.Result.{ok}
use ezlb.Std.{Std}
use ezlb.Snat.{SnatManager}
use ezlb.Lvs.Types.{
  Destination, ServiceKey, DestinationKey, service_key_eq, destination_key_eq,
  destination_key_from_ipvs,
}
use ezlb.Lvs.Handle.Fake.{
  FakeHandle, make_fake_service_key, make_fake_destination_key, get_destinations, clone_destination,
  fake_handle,
}
use ezlb.Lvs.Handle.Effects.{Destinations, put}
use ezlb.Lvs.Handle.Laws.{IsDestinationMap}
use ezlb.Lvs.Manager
use ezlb.Lvs.Reconciler.{DesiredService}
use ezlb.Lvs.Reconciler.Destinations.{index_destinations, diff_destinations, reconcile_destinations}
use ezlb.Lvs.Reconciler.Destinations.Steps.{
  settled, settle_all, lookup-settle_all, settle_all-HasDistinctKeys, apply_all,
}
use ezlb.Lvs.Reconciler.Destinations.Prune.{
  prune_all, lookup-prune_all, prune_all-HasDistinctKeys, remove_all,
}
use ezlb.Lvs.Reconciler.Fake.{fake_env}

map-clone_destination : {IP : Type 0} (ds : List (Destination IP)) → map clone_destination ds ≡ ds
unfolding clone_destination
map-clone_destination [] = refl
map-clone_destination (d ∷ ds) = rw (map-clone_destination ds)

module _ (std : Std) where
  open std use {IP}

  -- The destination that a run leaves at a key, from the desired and the actual one.
  abbrev pub destination_after :
      Option (Destination IP) → Option (Destination IP) → Option (Destination IP)
  destination_after none actual = none
  destination_after (some desired) actual = some (settled std desired actual)

  same_key :
      (dst : Destination IP) → destination_key_from_ipvs std dst ≡ make_fake_destination_key std dst
  unfolding destination_key_from_ipvs make_fake_destination_key
  same_key dst = refl

  pub index_destinations-IsDestinationMap :
      (ds : List (Destination IP)) → IsDestinationMap std (index_destinations std ds)
  unfolding index_destinations lookup destination_key_from_ipvs make_fake_destination_key
  index_destinations-IsDestinationMap ds = record {
    distinct = index_where-HasDistinctKeys (λ k. true) (destination_key_from_ipvs std) ds [] tt;
    keyed =
        index_where-IsKeyed (λ k. true) (destination_key_from_ipvs std) ds []
          (λ j v p. absurd (cc));
  }

  module _ (o : RangeOrder) where
    IsDestinationMap-arrange :
        (m : Destinations std) → IsDestinationMap std m → IsDestinationMap std (o.arrange m)
    IsDestinationMap-arrange m v = record {
      distinct = HasDistinctKeys-arrange o m v.distinct;
      keyed = λ j d p. v.keyed j d (ground (arith, lookup-arrange o m v.distinct j));
    }

    -- Indexing what GetDestinations returns gives the kernel's map again.
    lookup-index_destinations :
        (m : Destinations std) (j : DestinationKey)
        → IsDestinationMap std m
        → lookup j (index_destinations std (values (o.arrange m))) ≡ lookup j m
    unfolding index_destinations lookup destination_key_from_ipvs make_fake_destination_key
    lookup-index_destinations m j v =
        let v' = IsDestinationMap-arrange m v in
        lookup-index_where-values (λ k. true) (destination_key_from_ipvs std) (o.arrange m) [] j
          v'.distinct v'.keyed
        ∙ ground (arith, lookup-arrange o m v.distinct j)

    module _ (is_healthy : String → Bool) {F N : Type 0} (sm : SnatManager F N)
        (desired : DesiredService IP) (h : FakeHandle IP) (m : Destinations std)
        (found : lookup (make_fake_service_key std desired.service) h.destinations ≡ some m)
        (v : IsDestinationMap std m) where
      abbrev desired_map : Destinations std
      desired_map = index_destinations std desired.destinations

      abbrev actual_map : Destinations std
      actual_map = index_destinations std (values (o.arrange m))

      -- The map of destinations that a run leaves.
      pub destinations_after : Destinations std
      destinations_after =
          prune_all std desired_map (o.arrange actual_map)
            (settle_all std (o.arrange desired_map) m)

      abbrev k : ServiceKey
      k = make_fake_service_key std desired.service

      get_destinations_ok :
          Manager.get_destinations (fake_handle std o) desired.service h ≡ ok (values (o.arrange m))
      unfolding Manager.get_destinations get_destinations
      get_destinations_ok =
          rw (found, get_destinations) (rw (map-clone_destination (values (o.arrange m))))

      diff_destinations_ok :
          diff_destinations std (fake_env std o is_healthy sm) desired (values (o.arrange m)) h
          ≡ (put std k destinations_after h, [])
      unfolding diff_destinations destinations_after
      diff_destinations_ok =
          let dv = index_destinations-IsDestinationMap desired.destinations in
          let dv' = IsDestinationMap-arrange desired_map dv in
          let av = index_destinations-IsDestinationMap (values (o.arrange m)) in
          let av' = IsDestinationMap-arrange actual_map av in
          let m1 = settle_all std (o.arrange desired_map) m in
          rw
            (apply_all std o is_healthy sm desired.service h m actual_map (o.arrange desired_map)
              found dv'.distinct dv'.keyed (λ j d p. lookup-index_destinations m j v))
            (rw
              (remove_all std o is_healthy sm desired.service (put std k m1 h) m1 desired_map
                (o.arrange actual_map) (lookup-insert_self k m1 h.destinations) av'.distinct
                av'.keyed
                (λ j d p gone. (
                  d,
                  ground (
                    arith,
                    lookup-settle_all std (o.arrange desired_map) m j dv'.distinct,
                    lookup-arrange o desired_map dv.distinct j,
                    lookup-arrange o actual_map av.distinct j,
                    lookup-index_destinations m j v,
                    gone,
                    p,
                  ),
                )))
              (rw (insert-insert k destinations_after m1 h.destinations)))

      -- The run reports no error and changes the destinations of this service only.
      pub reconcile_destinations_ok :
          reconcile_destinations std (fake_env std o is_healthy sm) desired h
          ≡ (put std k destinations_after h, none)
      unfolding reconcile_destinations
      reconcile_destinations_ok =
          rw (get_destinations_ok, reconcile_destinations) (rw diff_destinations_ok)

      pub lookup-destinations_after :
          (j : DestinationKey)
          → lookup j destinations_after ≡ destination_after (lookup j desired_map) (lookup j m)
      unfolding destinations_after
      lookup-destinations_after j =
          let dv = index_destinations-IsDestinationMap desired.destinations in
          let av = index_destinations-IsDestinationMap (values (o.arrange m)) in
          lookup-prune_all std desired_map (o.arrange actual_map) _ j
            (HasDistinctKeys-arrange o actual_map av.distinct)
          ∙ ground (
            arith,
            lookup-settle_all std (o.arrange desired_map) m j
                (HasDistinctKeys-arrange o desired_map dv.distinct),
            lookup-arrange o desired_map dv.distinct j,
            lookup-arrange o actual_map av.distinct j,
            lookup-index_destinations m j v,
          )

      pub destinations_after-IsDestinationMap : IsDestinationMap std destinations_after
      unfolding destinations_after
      destinations_after-IsDestinationMap =
          let dv = index_destinations-IsDestinationMap desired.destinations in
          record {
            distinct =
                prune_all-HasDistinctKeys std desired_map (o.arrange actual_map) _
                  (settle_all-HasDistinctKeys std (o.arrange desired_map) m v.distinct);
            keyed =
                λ j d p. ground (arith, lookup-destinations_after j, p, dv.keyed j d, v.keyed j d);
          }
