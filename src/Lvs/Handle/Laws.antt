-- ===== src/Lvs/Handle/Laws.antt =====
-- What the operations of the in-memory handle do to its two maps, and the invariant that they keep.
use ezlb.Shared.{◌≡◌, refl, inl, inr, some, [], true, arith}
use mathlib.Core.Path.{subst}
use ezlb.Shared.Eq.{◌==◌, ==_iff}
use ezlb.Shared.GoMap.{
  GoMap, lookup, insert, delete, HasDistinctKeys, lookup-insert, lookup-delete,
  HasDistinctKeys-insert, HasDistinctKeys-delete,
}
use ezlb.Shared.Index.{IsKeyed, IsKeyed-insert}
use ezlb.Shared.Tests.{is_some, Bool-cases, Option-cases}
use ezlb.Std.{Std}
use ezlb.Lvs.Types.{
  Service, Destination, ServiceKey, DestinationKey, service_key_eq, destination_key_eq,
}
use ezlb.Lvs.Handle.Fake.{
  FakeHandle, make_fake_service_key, make_fake_destination_key, new_ipvs_handle, new_service,
  update_service, del_service, new_destination, update_destination, del_destination, flush,
  clone_service, clone_destination,
}

module _ (std : Std) where
  open std use {IP}

  -- The destinations of one service: one entry for each key, each under its own key.
  pub record IsDestinationMap (m : GoMap DestinationKey (Destination IP)) : Type 0 where
    pub distinct : HasDistinctKeys m
    pub keyed : IsKeyed (make_fake_destination_key std) m

  -- Services stand under their own keys, and the two maps have the same keys.
  pub record IsWellFormed (h : FakeHandle IP) : Type 0 where
    pub distinct : HasDistinctKeys h.services
    pub keyed : IsKeyed (make_fake_service_key std) h.services
    pub paired :
        (k : ServiceKey) → is_some (lookup k h.services) ≡ is_some (lookup k h.destinations)
    pub each_map :
        (k : ServiceKey) (m : GoMap DestinationKey (Destination IP))
        → lookup k h.destinations ≡ some m
        → IsDestinationMap m

  pub IsWellFormed-new_ipvs_handle : IsWellFormed new_ipvs_handle
  unfolding new_ipvs_handle lookup
  IsWellFormed-new_ipvs_handle = record {
    distinct = tt;
    keyed = λ j v p. absurd (cc);
    paired = λ k. refl;
    each_map = λ k m p. absurd (cc);
  }

  IsDestinationMap-nil : IsDestinationMap []
  unfolding lookup
  IsDestinationMap-nil = record { distinct = tt; keyed = λ j v p. absurd (cc) }

  -- Every map under a key satisfies the invariant.
  abbrev pub AllMaps : GoMap ServiceKey (GoMap DestinationKey (Destination IP)) → Type 0
  AllMaps ms =
      (k : ServiceKey) (m : GoMap DestinationKey (Destination IP))
      → lookup k ms ≡ some m
      → IsDestinationMap m

  AllMaps-insert :
      (k : ServiceKey) (m : GoMap DestinationKey (Destination IP))
      (ms : GoMap ServiceKey (GoMap DestinationKey (Destination IP)))
      → AllMaps ms
      → IsDestinationMap m
      → AllMaps (insert k m ms)
  AllMaps-insert k m ms all v j n p = elim (Bool-cases (k == j)) [
    | inl same ↦ subst IsDestinationMap (ground (arith, lookup-insert k j m ms)) v
    | inr other ↦ all j n (ground (arith, lookup-insert k j m ms))
  ]

  IsDestinationMap-insert :
      (dst : Destination IP) (m : GoMap DestinationKey (Destination IP))
      → IsDestinationMap m
      → IsDestinationMap (insert (make_fake_destination_key std dst) dst m)
  IsDestinationMap-insert dst m v = record {
    distinct = HasDistinctKeys-insert (make_fake_destination_key std dst) dst m v.distinct;
    keyed = IsKeyed-insert (make_fake_destination_key std) dst m v.keyed;
  }

  IsDestinationMap-delete :
      (k : DestinationKey) (m : GoMap DestinationKey (Destination IP))
      → IsDestinationMap m
      → IsDestinationMap (delete k m)
  IsDestinationMap-delete k m v = record {
    distinct = HasDistinctKeys-delete k m v.distinct;
    keyed = λ j d p. v.keyed j d (ground (arith, lookup-delete k j m));
  }

  module _ (h : FakeHandle IP) (w : IsWellFormed h) where
    -- A service is written together with a fresh map of destinations.
    put_both :
        (svc : Service IP) (m : GoMap DestinationKey (Destination IP))
        → IsDestinationMap m
        → let k = make_fake_service_key std svc in
          IsWellFormed (record {
            services = insert k svc h.services;
            destinations = insert k m h.destinations;
          })
    put_both svc m v =
        let k = make_fake_service_key std svc in
        record {
          distinct = HasDistinctKeys-insert k svc h.services w.distinct;
          keyed = IsKeyed-insert (make_fake_service_key std) svc h.services w.keyed;
          paired = λ j. ground (
            arith,
            lookup-insert k j svc h.services,
            lookup-insert k j m h.destinations,
            w.paired j,
          );
          each_map = AllMaps-insert k m h.destinations w.each_map v;
        }

    -- A service is overwritten where there is one.
    put_service :
        (svc : Service IP)
        → let k = make_fake_service_key std svc in
          is_some (lookup k h.services) ≡ true
          → IsWellFormed (record h { services = insert k svc h.services })
    put_service svc old =
        let k = make_fake_service_key std svc in
        record {
          distinct = HasDistinctKeys-insert k svc h.services w.distinct;
          keyed = IsKeyed-insert (make_fake_service_key std) svc h.services w.keyed;
          paired =
              λ j. ground (arith, lookup-insert k j svc h.services, w.paired j, old, ==_iff k j);
          each_map = w.each_map;
        }

    -- The map of a service that is there is overwritten.
    pub put_map :
        (k : ServiceKey) (m : GoMap DestinationKey (Destination IP))
        → is_some (lookup k h.destinations) ≡ true
        → IsDestinationMap m
        → IsWellFormed (record h { destinations = insert k m h.destinations })
    put_map k m old v = record {
      distinct = w.distinct;
      keyed = w.keyed;
      paired = λ j. ground (arith, lookup-insert k j m h.destinations, w.paired j, old, ==_iff k j);
      each_map = AllMaps-insert k m h.destinations w.each_map v;
    }

    pub drop_both :
        (k : ServiceKey)
        → IsWellFormed
            (record { services = delete k h.services; destinations = delete k h.destinations })
    drop_both k = record {
      distinct = HasDistinctKeys-delete k h.services w.distinct;
      keyed = λ j s p. w.keyed j s (ground (arith, lookup-delete k j h.services));
      paired = λ j.
          ground
            (arith, lookup-delete k j h.services, lookup-delete k j h.destinations, w.paired j);
      each_map = λ j n p. w.each_map j n (ground (arith, lookup-delete k j h.destinations));
    }

    pub new_service-IsWellFormed : (svc : Service IP) → IsWellFormed (new_service std svc h).0
    unfolding new_service clone_service
    new_service-IsWellFormed svc =
        elim (Option-cases (lookup (make_fake_service_key std svc) h.services)) [
          | inl missing ↦ rw (missing, new_service) (put_both svc [] IsDestinationMap-nil)
          | inr (old, found) ↦ rw (found, new_service) w
        ]

    pub update_service-IsWellFormed : (svc : Service IP) → IsWellFormed (update_service std svc h).0
    unfolding update_service clone_service
    update_service-IsWellFormed svc =
        elim (Option-cases (lookup (make_fake_service_key std svc) h.services)) [
          | inl missing ↦ rw (missing, update_service) w
          | inr (old, found) ↦ rw (found, update_service) (put_service svc (rw found))
        ]

    pub del_service-IsWellFormed : (svc : Service IP) → IsWellFormed (del_service std svc h).0
    unfolding del_service
    del_service-IsWellFormed svc =
        elim (Option-cases (lookup (make_fake_service_key std svc) h.services)) [
          | inl missing ↦ rw (missing, del_service) w
          | inr (old, found) ↦ rw (found, del_service) (drop_both (make_fake_service_key std svc))
        ]

    pub flush-IsWellFormed : IsWellFormed (flush std h).0
    unfolding flush new_ipvs_handle
    flush-IsWellFormed = IsWellFormed-new_ipvs_handle

    module _ (svc : Service IP) (dst : Destination IP) where
      pub new_destination-IsWellFormed : IsWellFormed (new_destination std svc dst h).0
      unfolding new_destination clone_destination
      new_destination-IsWellFormed =
          let k = make_fake_service_key std svc in
          elim (Option-cases (lookup k h.destinations)) [
            | inl missing ↦ rw (missing, new_destination) w
            | inr (m, found) ↦ elim (Option-cases (lookup (make_fake_destination_key std dst) m)) [
              | inl fresh ↦
                  rw (found, new_destination)
                    (rw (fresh, new_destination)
                      (put_map k _ (rw found)
                        (IsDestinationMap-insert dst m (w.each_map k m found))))
              | inr (old, taken) ↦ rw (found, new_destination) (rw (taken, new_destination) w)
            ]
          ]

      pub update_destination-IsWellFormed : IsWellFormed (update_destination std svc dst h).0
      unfolding update_destination clone_destination
      update_destination-IsWellFormed =
          let k = make_fake_service_key std svc in
          elim (Option-cases (lookup k h.destinations)) [
            | inl missing ↦ rw (missing, update_destination) w
            | inr (m, found) ↦ elim (Option-cases (lookup (make_fake_destination_key std dst) m)) [
              | inl fresh ↦ rw (found, update_destination) (rw (fresh, update_destination) w)
              | inr (old, taken) ↦
                  rw (found, update_destination)
                    (rw (taken, update_destination)
                      (put_map k _ (rw found)
                        (IsDestinationMap-insert dst m (w.each_map k m found))))
            ]
          ]

      pub del_destination-IsWellFormed : IsWellFormed (del_destination std svc dst h).0
      unfolding del_destination
      del_destination-IsWellFormed =
          let k = make_fake_service_key std svc in
          elim (Option-cases (lookup k h.destinations)) [
            | inl missing ↦ rw (missing, del_destination) w
            | inr (m, found) ↦ elim (Option-cases (lookup (make_fake_destination_key std dst) m)) [
              | inl fresh ↦ rw (found, del_destination) (rw (fresh, del_destination) w)
              | inr (old, taken) ↦
                  rw (found, del_destination)
                    (rw (taken, del_destination)
                      (put_map k _ (rw found) (IsDestinationMap-delete _ m (w.each_map k m found))))
            ]
          ]
