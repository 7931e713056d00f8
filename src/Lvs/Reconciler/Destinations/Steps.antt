-- ===== src/Lvs/Reconciler/Destinations/Steps.antt =====
-- The first loop of reconcileDestinations over the in-memory handle: each round, and so the loop,
-- replaces the map of one service, by `settle`, and reports no error.
use mathlib.Core.Path.{subst}
use ezlb.Shared.{◌≡◌, refl, inl, inr, ◌∙◌, String, Bool, Option, none, some, [], ◌∷◌, arith}
use ezlb.Shared.Eq.{◌==◌, ==_iff}
use ezlb.Shared.GoMap.{
  lookup, insert, HasDistinctKeys, lookup-insert, lookup-insert_self, insert_same, insert-insert,
  HasDistinctKeys-insert,
}
use ezlb.Shared.Index.{IsKeyed, IsKeyed-tail}
use ezlb.Shared.Int.{int_eq}
use ezlb.Shared.Order.{RangeOrder}
use ezlb.Shared.Result.{for_each}
use ezlb.Shared.Tests.{if◌then◌else◌, Option-cases, Bool-cases}
use ezlb.Std.{Std}
use ezlb.Snat.{SnatManager}
use ezlb.Lvs.Types.{
  Service, Destination, ServiceKey, DestinationKey, service_key_eq, destination_key_eq,
}
use ezlb.Lvs.Handle.Fake.{FakeHandle, make_fake_service_key, make_fake_destination_key}
use ezlb.Lvs.Handle.Effects.{Destinations, put, new_destination_fresh, update_destination_found}
use ezlb.Lvs.Manager.{create_destination, update_destination}
use ezlb.Lvs.Reconciler.Destinations.{apply_destination}
use ezlb.Lvs.Reconciler.Fake.{fake_env}

module _ (std : Std) where
  open std use {IP}

  -- What the first loop makes of one desired destination.
  unfoldable pub settle : DestinationKey → Destination IP → Destinations std → Destinations std
  settle key desired m = elim (lookup key m) [
    | none ↦ insert key desired m
    | some actual ↦ if actual.weight == desired.weight then m else insert key desired m
  ]

  unfoldable pub settle_all : Destinations std → Destinations std → Destinations std
  settle_all [] m = m
  settle_all ((key, desired) ∷ ds) m = settle_all ds (settle key desired m)

  -- A desired destination keeps an actual one of the same weight, and else replaces it.
  abbrev pub settled : Destination IP → Option (Destination IP) → Destination IP
  settled desired none = desired
  settled desired (some actual) = if actual.weight == desired.weight then actual else desired

  lookup-settle :
      (key j : DestinationKey) (desired : Destination IP) (m : Destinations std)
      → lookup j (settle key desired m)
        ≡ (if key == j then some (settled desired (lookup j m)) else lookup j m)
  unfolding settle
  lookup-settle key j desired m = ground (arith, lookup-insert key j desired m, ==_iff key j)

  -- The first loop at each key: a desired one is settled, any other kept.
  pub lookup-settle_all :
      (ds m : Destinations std) (j : DestinationKey)
      → HasDistinctKeys ds
      → lookup j (settle_all ds m)
        ≡ elim (lookup j ds) [ none ↦ lookup j m | some d ↦ some (settled d (lookup j m)) ]
  unfolding settle_all lookup
  lookup-settle_all [] m j distinct = refl
  lookup-settle_all ((key, d) ∷ ds) m j distinct =
      lookup-settle_all ds (settle key d m) j distinct.1
      ∙ ground (arith, lookup-settle key j d m, distinct.0, ==_iff key j)

  pub settle_all-HasDistinctKeys :
      (ds m : Destinations std) → HasDistinctKeys m → HasDistinctKeys (settle_all ds m)
  unfolding settle_all settle
  settle_all-HasDistinctKeys [] m h = h
  settle_all-HasDistinctKeys ((key, d) ∷ ds) m h =
      settle_all-HasDistinctKeys ds (settle key d m) (elim (Option-cases (lookup key m)) [
        | inl fresh ↦ rw (fresh, settle) (HasDistinctKeys-insert key d m h)
        | inr (actual, there) ↦ elim (Bool-cases (actual.weight == d.weight)) [
          | inl equal ↦ rw (there, settle) (rw equal h)
          | inr differ ↦ rw (there, settle) (rw differ (HasDistinctKeys-insert key d m h))
        ]
      ])

  module _ (o : RangeOrder) (is_healthy : String → Bool) {F N : Type 0} (sm : SnatManager F N)
      (svc : Service IP) where
    abbrev k : ServiceKey
    k = make_fake_service_key std svc

    -- One round of the first loop, at the destination's own key.
    apply_at_own_key :
        (h : FakeHandle IP) (m actual_map : Destinations std) (desired : Destination IP)
        → lookup k h.destinations ≡ some m
        → let key = make_fake_destination_key std desired in
          lookup key actual_map ≡ lookup key m
          → apply_destination std (fake_env std o is_healthy sm) svc actual_map (key, desired) h
            ≡ (put std k (settle key desired m) h, none)
    unfolding apply_destination create_destination update_destination settle
    apply_at_own_key h m actual_map desired found same =
        let key = make_fake_destination_key std desired in
        elim (Option-cases (lookup key m)) [
          | inl fresh ↦
              rw (same ∙ fresh, apply_destination)
                (rw (new_destination_fresh std svc h desired m found fresh) (rw (fresh, settle)))
          | inr (actual, there) ↦ elim (Bool-cases (actual.weight == desired.weight)) [
            | inl equal ↦
                rw (same ∙ there, apply_destination)
                  (rw equal
                    (rw (there, settle) (rw equal (rw (insert_same k m h.destinations found)))))
            | inr differ ↦
                rw (same ∙ there, apply_destination)
                  (rw differ (
                    rw (update_destination_found std svc h desired m found there)
                      (rw (there, settle) (rw differ))))
          ]
        ]

    apply_one :
        (h : FakeHandle IP) (m actual_map : Destinations std) (key : DestinationKey)
        (desired : Destination IP)
        → lookup k h.destinations ≡ some m
        → make_fake_destination_key std desired ≡ key
        → lookup key actual_map ≡ lookup key m
        → apply_destination std (fake_env std o is_healthy sm) svc actual_map (key, desired) h
          ≡ (put std k (settle key desired m) h, none)
    apply_one h m actual_map key desired found own =
        subst
          (λ q.
            lookup q actual_map ≡ lookup q m
            → apply_destination std (fake_env std o is_healthy sm) svc actual_map (q, desired) h
              ≡ (put std k (settle q desired m) h, none))
          own (apply_at_own_key h m actual_map desired found)

    -- The first loop.
    pub apply_all :
        (h : FakeHandle IP) (m actual_map ds : Destinations std)
        → lookup k h.destinations ≡ some m
        → HasDistinctKeys ds
        → IsKeyed (make_fake_destination_key std) ds
        → ((j : DestinationKey) (d : Destination IP)
            → lookup j ds ≡ some d
            → lookup j actual_map ≡ lookup j m)
        → for_each (apply_destination std (fake_env std o is_healthy sm) svc actual_map) ds h
          ≡ (put std k (settle_all ds m) h, [])
    unfolding for_each settle_all lookup
    apply_all h m actual_map [] found distinct keyed agree =
        rw (insert_same k m h.destinations found)
    apply_all h m actual_map ((key, desired) ∷ ds) found distinct keyed agree =
        let own : make_fake_destination_key std desired ≡ key =
          keyed key desired (ground (arith, ==_iff key key)) in
        let same : lookup key actual_map ≡ lookup key m =
          agree key desired (ground (arith, ==_iff key key)) in
        let m1 = settle key desired m in
        let rest : for_each (apply_destination std (fake_env std o is_healthy sm) svc actual_map) ds
              (put std k m1 h)
            ≡ (put std k (settle_all ds m1) (put std k m1 h), []) =
          apply_all (put std k m1 h) m1 actual_map ds (lookup-insert_self k m1 h.destinations)
            distinct.1 (IsKeyed-tail (make_fake_destination_key std) key desired ds distinct keyed)
            (λ j d p.
              ground
                (arith, lookup-settle key j desired m, distinct.0, p, agree j d, ==_iff key j)) in
        rw (apply_one h m actual_map key desired found own same)
          (rw rest (rw (insert-insert k (settle_all ds m1) m1 h.destinations)))
