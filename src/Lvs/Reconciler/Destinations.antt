-- ===== src/Lvs/Reconciler/Destinations.antt =====
-- pkg/lvs/reconciler.go: reconcileDestinations.
pub mod Steps
pub mod Prune
pub mod Converge
use ezlb.Shared.{true, Option, none, some, List, [], ◌∷◌, ◌++◌}
use ezlb.Shared.Eq.{◌==◌}
use ezlb.Shared.GoMap.{GoMap, lookup}
use ezlb.Shared.Index.{index_where}
use ezlb.Shared.Int.{int_eq}
use ezlb.Shared.Result.{ok, err, for_each}
use ezlb.Shared.Tests.{if◌then◌else◌}
use ezlb.Std.{Std}
use ezlb.Lvs.Types.{
  DestinationKey, Service, Destination, destination_key_eq, destination_key_from_ipvs,
}
use ezlb.Lvs.Manager
use ezlb.Lvs.Manager.{ManagerError}
use ezlb.Lvs.Reconciler.{
  DesiredService, DestinationError, create_destination, update_destination, delete_destination,
  ReconcileError, get_destinations, destinations, Env,
}

module _ (std : Std) where
  open std use {IP}

  -- for _, dst := range dsts { m[key(dst)] = dst }
  unfoldable pub index_destinations : List (Destination IP) → GoMap DestinationKey (Destination IP)
  index_destinations dsts = index_where (λ k. true) (destination_key_from_ipvs std) dsts []

  module _ {E F S N : Type 0} (env : Env std E F S N) where
    open env use {handle, order}

    abbrev report :
        {D : Type 0} → (ManagerError IP E → D) → S × Option (ManagerError IP E) → S × Option D
    report = Manager.wrap

    -- The body of the first loop of reconcileDestinations.
    unfoldable pub apply_destination :
        Service IP
        → GoMap DestinationKey (Destination IP)
        → DestinationKey × Destination IP
        → S
        → S × Option (DestinationError IP E)
    apply_destination svc actual_map (key, desired) s = elim (lookup key actual_map) [
      | none ↦ report (create_destination key) (Manager.create_destination handle svc desired s)
      | some actual ↦
          if actual.weight == desired.weight
          then (s, none)
          else report (update_destination key) (Manager.update_destination handle svc desired s)
    ]

    -- The body of its second loop.
    unfoldable pub remove_destination :
        Service IP
        → GoMap DestinationKey (Destination IP)
        → DestinationKey × Destination IP
        → S
        → S × Option (DestinationError IP E)
    remove_destination svc desired_map (key, actual) s = elim (lookup key desired_map) [
      | some _ ↦ (s, none)
      | none ↦ report (delete_destination key) (Manager.delete_destination handle svc actual s)
    ]

    abbrev join_destinations : List (DestinationError IP E) → Option (ReconcileError IP E F)
    join_destinations [] = none
    join_destinations (e ∷ es) = some (destinations (e ∷ es))

    unfoldable pub diff_destinations :
        DesiredService IP → List (Destination IP) → S → S × List (DestinationError IP E)
    diff_destinations desired actual_dests s =
        let actual_map = index_destinations actual_dests in
        let desired_map = index_destinations desired.destinations in
        let (s', es) =
          for_each (apply_destination desired.service actual_map) (order.arrange desired_map) s in
        let (s'', es') =
          for_each (remove_destination desired.service desired_map) (order.arrange actual_map) s' in
        (s'', es ++ es')

    unfoldable pub reconcile_destinations :
        DesiredService IP → S → S × Option (ReconcileError IP E F)
    reconcile_destinations desired s = elim (Manager.get_destinations handle desired.service s) [
      | err e ↦ (s, some (get_destinations e))
      | ok actual_dests ↦
          let (s', es) = diff_destinations desired actual_dests s in (s', join_destinations es)
    ]
