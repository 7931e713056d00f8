-- ===== src/Lvs/Reconciler/Services.antt =====
-- pkg/lvs/reconciler.go: the loops over services of Reconcile and Cleanup.
pub mod Apply
pub mod ApplyAll
pub mod Remove
pub mod RemoveAll
use ezlb.Shared.{Bool, true, Option, none, some, List, []}
use ezlb.Shared.Eq.{◌==◌, string_eq}
use ezlb.Shared.GoMap.{GoMap, lookup, insert, delete}
use ezlb.Shared.Index.{index_where}
use ezlb.Shared.Tests.{if◌then◌else◌}
use ezlb.Std.{Std}
use ezlb.Lvs.Types.{ServiceKey, Service, service_key_eq, service_key_from_ipvs}
use ezlb.Lvs.Manager
use ezlb.Lvs.Reconciler.{
  DesiredService, ReconcileError, create_service, update_service, delete_service, World, Env,
}
use ezlb.Lvs.Reconciler.Destinations.{reconcile_destinations}

module _ (std : Std) where
  open std use {IP}

  -- The services that a run may touch, under their keys.
  unfoldable pub index_services :
      (ServiceKey → Bool) → List (Service IP) → GoMap ServiceKey (Service IP)
  index_services relevant services = index_where relevant (service_key_from_ipvs std) services []

  module _ {E F S N : Type 0} (env : Env std E F S N) where
    open env use {handle}

    -- r.managed[key] = true
    abbrev pub mark_managed : ServiceKey → World S N → World S N
    mark_managed key w = record w { managed = insert key true w.managed }

    -- Phase 4 for one service.
    unfoldable pub then_destinations :
        DesiredService IP → World S N → World S N × Option (ReconcileError IP E F)
    then_destinations desired w =
        let (s, e) = reconcile_destinations std env desired w.kernel in (record w { kernel = s }, e)

    -- Where the service is absent: create it, and go on only if that succeeds.
    unfoldable pub create_desired :
        ServiceKey → DesiredService IP → World S N → World S N × Option (ReconcileError IP E F)
    create_desired key desired w =
        let (s, e) = Manager.create_service handle desired.service w.kernel in
        elim e [
          | some cause ↦ (record w { kernel = s }, some (create_service key cause))
          | none ↦ then_destinations desired (mark_managed key (record w { kernel = s }))
        ]

    -- Where it is present: mark it, and update it if the scheduler differs.
    unfoldable pub update_desired :
        ServiceKey
        → Service IP
        → DesiredService IP
        → World S N
        → World S N × Option (ReconcileError IP E F)
    update_desired key actual desired w =
        let w' = mark_managed key w in
        let (s, e) = Manager.update_service handle desired.service w.kernel in
        if actual.sched_name == desired.service.sched_name
        then then_destinations desired w'
        else elim e [
          | some cause ↦ (record w' { kernel = s }, some (update_service key cause))
          | none ↦ then_destinations desired (record w' { kernel = s })
        ]

    -- The body of the loop over the desired services (phases 3 and 4).
    unfoldable pub apply_service :
        GoMap ServiceKey (Service IP)
        → ServiceKey × DesiredService IP
        → World S N
        → World S N × Option (ReconcileError IP E F)
    apply_service actual_map (key, desired) w = elim (lookup key actual_map) [
      | none ↦ create_desired key desired w
      | some actual ↦ update_desired key actual desired w
    ]

    -- Delete one service, and stop managing it if that succeeds.
    unfoldable pub drop_service :
        ServiceKey → Service IP → World S N → World S N × Option (ReconcileError IP E F)
    drop_service key svc w =
        let (s, e) = Manager.delete_service handle svc w.kernel in
        elim e [
          | some cause ↦ (record w { kernel = s }, some (delete_service key cause))
          | none ↦ (record w { kernel = s; managed = delete key w.managed }, none)
        ]

    -- The body of the loop that deletes what is no longer desired.
    unfoldable pub remove_service :
        GoMap ServiceKey (DesiredService IP)
        → ServiceKey × Service IP
        → World S N
        → World S N × Option (ReconcileError IP E F)
    remove_service desired_map (key, actual) w = elim (lookup key desired_map) [
      | some _ ↦ (w, none)
      | none ↦ drop_service key actual w
    ]

    -- The body of Cleanup's loop over the managed keys.
    unfoldable pub cleanup_service :
        GoMap ServiceKey (Service IP)
        → ServiceKey × Bool
        → World S N
        → World S N × Option (ReconcileError IP E F)
    cleanup_service actual_map (key, b) w = elim (lookup key actual_map) [
      | none ↦ (record w { managed = delete key w.managed }, none)
      | some svc ↦ drop_service key svc w
    ]
