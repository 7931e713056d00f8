-- ===== src/Lvs/Reconciler/Run.antt =====
-- pkg/lvs/reconciler.go: NewReconciler, Reconcile, Cleanup and reconcileSNAT.
use ezlb.Shared.{true, Option, none, some, List, [], ◌∷◌, ◌++◌, ◌||◌, map, Bool}
use ezlb.Shared.GoMap.{GoMap, lookup}
use ezlb.Shared.Result.{ok, err, for_each}
use ezlb.Shared.Tests.{is_some}
use ezlb.Std.{Std}
use ezlb.Config.{ServiceConfig}
use ezlb.Snat.{SnatRule, ForwardRule}
use ezlb.Lvs.Types.{ServiceKey, Service, service_key_eq}
use ezlb.Lvs.Manager
use ezlb.Lvs.Reconciler.{
  DesiredService, SnatError, snat_rules, forward_rules, ReconcileError, snat_reconcile, Failure,
  current_services, joined, World, Env, is_managed,
}
use ezlb.Lvs.Reconciler.Build.{build_desired_state, snat_services}
use ezlb.Lvs.Reconciler.Services.{index_services, apply_service, remove_service, cleanup_service}

-- NewReconciler: nothing is managed yet.
unfoldable pub new_world : {S N : Type 0} → S → N → World S N
new_world s n = record { kernel = s; snat = n; managed = [] }

-- errors.Join, which is nil for no errors
abbrev pub join : {IP E F : Type 0} → List (ReconcileError IP E F) → Option (Failure IP E F)
join [] = none
join (e ∷ es) = some (joined (e ∷ es))

module _ (std : Std) {E F S N : Type 0} (env : Env std E F S N) where
  open std use {IP}
  open env use {handle, is_healthy, snat_mgr, order}

  -- The tail of reconcileSNAT: FORWARD rules follow only if the SNAT rules succeed.
  unfoldable pub install_rules :
      List SnatRule → List ForwardRule → World S N → World S N × Option (SnatError F)
  install_rules rules forwards w =
      let (n, e) = snat_mgr.reconcile rules w.snat in
      let (n', e') = snat_mgr.reconcile_forward forwards n in
      elim e [
        | some cause ↦ (record w { snat = n }, some (snat_rules cause))
        | none ↦ elim e' [
          | some cause ↦ (record w { snat = n' }, some (forward_rules cause))
          | none ↦ (record w { snat = n' }, none)
        ]
      ]

  unfoldable pub reconcile_snat :
      List ServiceConfig → World S N → World S N × Option (ReconcileError IP E F)
  reconcile_snat configs w = elim (snat_services std is_healthy configs) [
    | err e ↦ (w, some (snat_reconcile e))
    | ok rules ↦
        let (w', e) = install_rules (map (λ r. r.0) rules) (map (λ r. r.1) rules) w in
        elim e [ none ↦ (w', none) | some cause ↦ (w', some (snat_reconcile cause)) ]
  ]

  abbrev pub append_error :
      List (ReconcileError IP E F) → Option (ReconcileError IP E F) → List (ReconcileError IP E F)
  append_error es none = es
  append_error es (some e) = es ++ e ∷ []

  -- The two service loops of phases 3 and 4.
  unfoldable pub reconcile_services :
      GoMap ServiceKey (DesiredService IP)
      → GoMap ServiceKey (Service IP)
      → World S N
      → World S N × List (ReconcileError IP E F)
  reconcile_services desired_map actual_map w =
      let (w1, es1) = for_each (apply_service std env actual_map) (order.arrange desired_map) w in
      let (w2, es2) = for_each (remove_service std env desired_map) (order.arrange actual_map) w1 in
      (w2, es1 ++ es2)

  -- r.managed[key] || desiredMap[key] != nil
  abbrev pub is_relevant : World S N → GoMap ServiceKey (DesiredService IP) → ServiceKey → Bool
  is_relevant w desired_map key = is_managed key w.managed || is_some (lookup key desired_map)

  unfoldable pub apply_desired :
      List ServiceConfig
      → GoMap ServiceKey (DesiredService IP)
      → List (Service IP)
      → World S N
      → World S N × Option (Failure IP E F)
  apply_desired configs desired_map services w =
      let actual_map = index_services std (is_relevant w desired_map) services in
      let (w1, es) = reconcile_services desired_map actual_map w in
      let (w2, e) = reconcile_snat configs w1 in (w2, join (append_error es e))

  -- Reconcile; the second component is the error that it returns.
  unfoldable pub reconcile : List ServiceConfig → World S N → World S N × Option (Failure IP E F)
  reconcile configs w = elim (build_desired_state std is_healthy configs []) [
    | err e ↦ (w, some e)
    | ok desired_map ↦ elim (Manager.get_services handle w.kernel) [
      | err e ↦ (w, some (current_services e))
      | ok services ↦ apply_desired configs desired_map services w
    ]
  ]

  unfoldable pub cleanup : World S N → World S N × Option (Failure IP E F)
  cleanup w = elim (Manager.get_services handle w.kernel) [
    | err e ↦ (w, some (current_services e))
    | ok services ↦
        let actual_map = index_services std (λ key. true) services in
        let (w', es) = for_each (cleanup_service std env actual_map) (order.arrange w.managed) w in
        (w', join es)
  ]
