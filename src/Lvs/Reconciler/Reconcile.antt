-- ===== src/Lvs/Reconciler/Reconcile.antt =====
-- Reconcile as a whole, over the in-memory handle and any SNAT manager.
use mathlib.Core.Path.{subst}
use ezlb.Shared.{◌≡◌, refl, ap, ◌∙◌, sym, String, Bool, none, List, [], ◌∷◌, map}
use ezlb.Shared.Eq.{string_eq}
use ezlb.Shared.Int.{int_eq}
use ezlb.Shared.GoMap.{GoMap, lookup, HasDistinctKeys}
use ezlb.Shared.Index.{IsKeyed, values}
use ezlb.Shared.Order.{RangeOrder}
use ezlb.Shared.Result.{ok}
use ezlb.Std.{Std}
use ezlb.Config.{ServiceConfig}
use ezlb.Snat.{SnatManager, SnatRule, ForwardRule}
use ezlb.Lvs.Types.{Service, ServiceKey, service_key_eq}
use ezlb.Lvs.Handle.Fake.{FakeHandle, FakeError, fake_handle, get_services, clone_service}
use ezlb.Lvs.Handle.Laws.{IsWellFormed}
use ezlb.Lvs.Manager
use ezlb.Lvs.Reconciler.{DesiredService, World}
use ezlb.Lvs.Reconciler.Build.{build_desired_state}
use ezlb.Lvs.Reconciler.Converge.{IsReconciled, reconcile_services_ok, actual_map}
use ezlb.Lvs.Reconciler.Desired.{AllCanonical, build_desired_state_lem}
use ezlb.Lvs.Reconciler.Fake.{fake_env}
use ezlb.Lvs.Reconciler.Run.{
  reconcile, apply_desired, reconcile_services, reconcile_snat, join, append_error,
}
use ezlb.Lvs.Reconciler.Services.ApplyAll.{kernel_key}
use ezlb.Lvs.Reconciler.SnatStep.{snat_services_ok, reconcile_snat_keeps, reconcile_snat-none}

map-clone_service : {IP : Type 0} (ss : List (Service IP)) → map clone_service ss ≡ ss
unfolding clone_service
map-clone_service [] = refl
map-clone_service (s ∷ ss) = rw (map-clone_service ss)

module _ (std : Std) {N : Type 0} where
  open std use {IP}

  IsReconciled-snat :
      (dm : GoMap ServiceKey (DesiredService IP)) (w w' : World (FakeHandle IP) N) (n : N)
      → IsReconciled std dm w w'
      → IsReconciled std dm w (record w' { snat = n })
  IsReconciled-snat dm w w' n r = record {
    well_formed = r.well_formed;
    services = r.services;
    destinations = r.destinations;
    managed = r.managed;
  }

module _ (std : Std) (o : RangeOrder) where
  open std use {IP}

  pub get_services_ok :
      (h : FakeHandle IP)
      → Manager.get_services (fake_handle std o) h ≡ ok (values (o.arrange h.services))
  unfolding Manager.get_services get_services
  get_services_ok h = rw (map-clone_service (values (o.arrange h.services)))

  module _ (is_healthy : String → Bool) {F N : Type 0} (sm : SnatManager F N)
      (configs : List ServiceConfig) (w : World (FakeHandle IP) N)
      (dm : GoMap ServiceKey (DesiredService IP))
      (built : build_desired_state std {E = FakeError} {F = F} is_healthy configs [] ≡ ok dm)
      (canonical : AllCanonical std configs) (wf : IsWellFormed std w.kernel) where
    pub dm_lem : HasDistinctKeys dm × IsKeyed (kernel_key std) dm
    unfolding lookup
    dm_lem =
        build_desired_state_lem std is_healthy configs [] dm canonical tt (λ j v p. absurd (cc))
          built

    abbrev pub services_done : World (FakeHandle IP) N
    services_done =
        (reconcile_services std (fake_env std o is_healthy sm) dm
          (actual_map std o is_healthy sm dm w dm_lem.0 dm_lem.1 wf) w).0

    -- Past its early returns Reconcile is the service loops and then reconcileSNAT.
    pub reconcile-world :
        (reconcile std (fake_env std o is_healthy sm) configs w).0
        ≡ (reconcile_snat std (fake_env std o is_healthy sm) configs services_done).0
    unfolding reconcile apply_desired
    reconcile-world = rw (built, reconcile) (rw (get_services_ok w.kernel))

    reconcile_world_keeps :
        (reconcile std (fake_env std o is_healthy sm) configs w).0 ≡ record services_done {
          snat = (reconcile_snat std (fake_env std o is_healthy sm) configs services_done).0.snat;
        }
    reconcile_world_keeps =
        reconcile-world
        ∙ reconcile_snat_keeps std (fake_env std o is_healthy sm) configs services_done

    pub services_done_ok :
        let r =
          reconcile_services std
            (fake_env std o is_healthy sm)
            dm
            (actual_map std o is_healthy sm dm w dm_lem.0 dm_lem.1 wf)
            w in
        (r.1 ≡ []) × (r.0.snat ≡ w.snat) × IsReconciled std dm w r.0
    services_done_ok = reconcile_services_ok std o is_healthy sm dm w dm_lem.0 dm_lem.1 wf

    -- Once buildDesiredState has returned the map `dm`, every listen address is canonical and the
    -- handle is well formed, Reconcile leaves the state that `IsReconciled` describes, whatever the
    -- SNAT manager does: under a desired key the desired service, or the actual one if its scheduler
    -- agrees, with the desired destinations, or the actual one if its weight agrees, and no other; nothing under a managed key that is no
    -- longer desired; and all other services as they were.
    pub reconcile-IsReconciled :
        IsReconciled std dm w (reconcile std (fake_env std o is_healthy sm) configs w).0
    reconcile-IsReconciled =
        let again = reconcile_world_keeps in
        subst (IsReconciled std dm w) (sym again)
          (IsReconciled-snat std dm w services_done _ services_done_ok.2)

    -- The error of Reconcile is that of reconcileSNAT alone.
    reconcile-error :
        (reconcile std (fake_env std o is_healthy sm) configs w).1
        ≡ join (
            append_error std
              (fake_env std o is_healthy sm)
              []
              (reconcile_snat std (fake_env std o is_healthy sm) configs services_done).1)
    unfolding reconcile apply_desired
    reconcile-error = rw (built, reconcile) (rw (get_services_ok w.kernel) (rw services_done_ok.0))

    -- Where buildDesiredState has returned a map, every listen address is canonical, the handle is
    -- well formed and the two operations of the SNAT manager return no error, Reconcile returns no
    -- error: nothing in the kernel refuses what it asks for.
    pub reconcile-error_none :
        ((rules : List SnatRule) (n : N) → (sm.reconcile rules n).1 ≡ none)
        → ((rules : List ForwardRule) (n : N) → (sm.reconcile_forward rules n).1 ≡ none)
        → (reconcile std (fake_env std o is_healthy sm) configs w).1 ≡ none
    reconcile-error_none no_error no_error' =
        let (rs, e) = snat_services_ok std {G = F} is_healthy configs [] dm built in
        let none_left =
          reconcile_snat-none std (fake_env std o is_healthy sm) configs services_done rs e no_error
            no_error' in
        reconcile-error
        ∙ ap (λ e'. join (append_error std (fake_env std o is_healthy sm) [] e')) none_left
