-- ===== src/Lvs/Reconciler/Destinations/Prune.antt =====
-- The second loop of reconcileDestinations over the in-memory handle: each round, and so the loop,
-- replaces the map of one service, by `prune`, and reports no error.
use mathlib.Core.Path.{subst}
use ezlb.Shared.{◌≡◌, inl, inr, ◌∙◌, String, Bool, none, some, [], ◌∷◌, arith}
use ezlb.Shared.Eq.{◌==◌, ==_iff}
use ezlb.Shared.GoMap.{
  lookup, delete, HasDistinctKeys, lookup-delete, lookup-insert_self, insert_same, insert-insert,
  HasDistinctKeys-delete,
}
use ezlb.Shared.Index.{IsKeyed, IsKeyed-tail}
use ezlb.Shared.Int.{int_eq}
use ezlb.Shared.Order.{RangeOrder}
use ezlb.Shared.Result.{for_each}
use ezlb.Shared.Tests.{if◌then◌else◌, Option-cases}
use ezlb.Std.{Std}
use ezlb.Snat.{SnatManager}
use ezlb.Lvs.Types.{
  Service, Destination, ServiceKey, DestinationKey, service_key_eq, destination_key_eq,
}
use ezlb.Lvs.Handle.Fake.{FakeHandle, make_fake_service_key, make_fake_destination_key}
use ezlb.Lvs.Handle.Effects.{Destinations, put, del_destination_found}
use ezlb.Lvs.Manager.{delete_destination}
use ezlb.Lvs.Reconciler.Destinations.{remove_destination}
use ezlb.Lvs.Reconciler.Fake.{fake_env}

module _ (std : Std) where
  open std use {IP}

  -- What the second loop makes of one actual destination.
  unfoldable pub prune : Destinations std → DestinationKey → Destinations std → Destinations std
  prune desired_map key m = elim (lookup key desired_map) [ some d ↦ m | none ↦ delete key m ]

  unfoldable pub prune_all :
      Destinations std → Destinations std → Destinations std → Destinations std
  prune_all desired_map [] m = m
  prune_all desired_map ((key, actual) ∷ as') m =
      prune_all desired_map as' (prune desired_map key m)

  lookup-prune :
      (desired_map : Destinations std) (key j : DestinationKey) (m : Destinations std)
      → lookup j (prune desired_map key m) ≡ (
          if key == j
          then elim (lookup key desired_map) [ some d ↦ lookup j m | none ↦ none ]
          else lookup j m)
  unfolding prune
  lookup-prune desired_map key j m = ground (arith, lookup-delete key j m, ==_iff key j)

  -- The second loop at each key: one that is not desired is deleted, if it is visited.
  pub lookup-prune_all :
      (desired_map visited m : Destinations std) (j : DestinationKey)
      → HasDistinctKeys visited
      → lookup j (prune_all desired_map visited m) ≡ elim (lookup j desired_map) [
        | some d ↦ lookup j m
        | none ↦ elim (lookup j visited) [ some a ↦ none | none ↦ lookup j m ]
      ]
  unfolding prune_all lookup
  lookup-prune_all dm [] m j distinct = ground arith
  lookup-prune_all dm ((key, a) ∷ visited) m j distinct =
      lookup-prune_all dm visited (prune dm key m) j distinct.1
      ∙ ground (arith, lookup-prune dm key j m, distinct.0, ==_iff key j)

  pub prune_all-HasDistinctKeys :
      (desired_map visited m : Destinations std)
      → HasDistinctKeys m
      → HasDistinctKeys (prune_all desired_map visited m)
  unfolding prune_all prune
  prune_all-HasDistinctKeys dm [] m h = h
  prune_all-HasDistinctKeys dm ((key, a) ∷ visited) m h =
      prune_all-HasDistinctKeys dm visited (prune dm key m) (elim (Option-cases (lookup key dm)) [
        | inl gone ↦ rw (gone, prune) (HasDistinctKeys-delete key m h)
        | inr (d, kept) ↦ rw (kept, prune) h
      ])

  module _ (o : RangeOrder) (is_healthy : String → Bool) {F N : Type 0} (sm : SnatManager F N)
      (svc : Service IP) where
    abbrev k : ServiceKey
    k = make_fake_service_key std svc

    remove_at_own_key :
        (h : FakeHandle IP) (m desired_map : Destinations std) (actual : Destination IP)
        → lookup k h.destinations ≡ some m
        → let key = make_fake_destination_key std actual in
          (lookup key desired_map ≡ none → (x : Destination IP) × (lookup key m ≡ some x))
          → remove_destination std (fake_env std o is_healthy sm) svc desired_map (key, actual) h
            ≡ (put std k (prune desired_map key m) h, none)
    unfolding remove_destination delete_destination prune
    remove_at_own_key h m dm actual found there =
        let key = make_fake_destination_key std actual in
        elim (Option-cases (lookup key dm)) [
          | inl gone ↦
              let (x, at) = there gone in
              rw (gone, remove_destination)
                (rw (del_destination_found std svc h actual m found at) (rw (gone, prune)))
          | inr (d, kept) ↦
              rw (kept, remove_destination)
                (rw (kept, prune) (rw (insert_same k m h.destinations found)))
        ]

    remove_one :
        (h : FakeHandle IP) (m desired_map : Destinations std) (key : DestinationKey)
        (actual : Destination IP)
        → lookup k h.destinations ≡ some m
        → make_fake_destination_key std actual ≡ key
        → (lookup key desired_map ≡ none → (x : Destination IP) × (lookup key m ≡ some x))
        → remove_destination std (fake_env std o is_healthy sm) svc desired_map (key, actual) h
          ≡ (put std k (prune desired_map key m) h, none)
    remove_one h m dm key actual found own =
        subst
          (λ q.
            (lookup q dm ≡ none → (x : Destination IP) × (lookup q m ≡ some x))
            → remove_destination std (fake_env std o is_healthy sm) svc dm (q, actual) h
              ≡ (put std k (prune dm q m) h, none))
          own (remove_at_own_key h m dm actual found)

    -- The second loop.
    pub remove_all :
        (h : FakeHandle IP) (m desired_map visited : Destinations std)
        → lookup k h.destinations ≡ some m
        → HasDistinctKeys visited
        → IsKeyed (make_fake_destination_key std) visited
        → ((j : DestinationKey) (d : Destination IP)
            → lookup j visited ≡ some d
            → lookup j desired_map ≡ none
            → (x : Destination IP) × (lookup j m ≡ some x))
        → for_each (remove_destination std (fake_env std o is_healthy sm) svc desired_map) visited h
          ≡ (put std k (prune_all desired_map visited m) h, [])
    unfolding for_each prune_all lookup
    remove_all h m dm [] found distinct keyed there = rw (insert_same k m h.destinations found)
    remove_all h m dm ((key, actual) ∷ visited) found distinct keyed there =
        let first : (if key == key then some actual else lookup key visited) ≡ some actual =
          ground (arith, ==_iff key key) in
        let m1 = prune dm key m in
        let rest : for_each (remove_destination std (fake_env std o is_healthy sm) svc dm) visited
              (put std k m1 h)
            ≡ (put std k (prune_all dm visited m1) (put std k m1 h), []) =
          remove_all (put std k m1 h) m1 dm visited (lookup-insert_self k m1 h.destinations)
            distinct.1
            (IsKeyed-tail (make_fake_destination_key std) key actual visited distinct keyed)
            (λ j d p gone.
              let (x, at) = there j d (ground (arith, distinct.0, p, ==_iff key j)) gone in
              (x, ground (arith, lookup-prune dm key j m, at, distinct.0, p, ==_iff key j))) in
        rw (remove_one h m dm key actual found (keyed key actual first) (there key actual first))
          (rw rest (rw (insert-insert k (prune_all dm visited m1) m1 h.destinations)))
