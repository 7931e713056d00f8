-- ===== src/Lvs/Reconciler/Tests.antt =====
-- The reconciler on a concrete configuration: one service of two backends, one of them unhealthy,
-- and a kernel that still has a managed service of an earlier configuration and a foreign one.
use mathlib.Core.List.{Memᴰ}
use ezlb.Shared.{◌≡◌, ◌↔◌, refl, String, Bool, true, false, not, none, some, List, [], ◌∷◌}
use ezlb.Shared.Eq.{◌==◌, string_eq}
use ezlb.Shared.GoMap.{GoMap, lookup, insert, HasDistinctKeys}
use ezlb.Shared.Int.{pos}
use ezlb.Shared.Result.{ok}
use ezlb.Shared.Tests.{is_some}
use ezlb.Std.Sample.{sample_std, in_order}
use ezlb.Config.Sample.{backends, web}
use ezlb.Snat.Fake.{FakeManager, fake_manager}
use ezlb.Lvs.Types.{Service, Destination, ServiceKey, DestinationKey, no_stats, service_key_eq}
use ezlb.Lvs.Handle.Fake.{FakeHandle, FakeError, new_ipvs_handle}
use ezlb.Lvs.Handle.Runs.{Call, run, run-IsWellFormed}
use ezlb.Lvs.Handle.Laws.{IsWellFormed}
use ezlb.Lvs.Reconciler.{DesiredService, World}
use ezlb.Lvs.Reconciler.Sample.{service_at, key_at, kernel-IsWellFormed, start}
use ezlb.Lvs.Reconciler.Build.{build_desired_state, build_destinations}
use ezlb.Lvs.Reconciler.Desired.{AllCanonical}
use ezlb.Lvs.Reconciler.Converge.{IsReconciled}
use ezlb.Lvs.Reconciler.Reconcile.{reconcile-IsReconciled, reconcile-error_none}
use ezlb.Lvs.Reconciler.Again.{reconcile-reconcile}
use ezlb.Lvs.Reconciler.Cleanup.{cleanup-IsDropped}
use ezlb.Lvs.Reconciler.Healthy.{build_destinations-IsServed, IsServed}
use ezlb.Lvs.Reconciler.Fake.{fake_env}
use ezlb.Lvs.Reconciler.Run.{reconcile, cleanup}
use ezlb.Lvs.Reconciler.Services.Apply.{destination_at}
use ezlb.Lvs.Reconciler.Services.Remove.{IsDropped}

abbrev pub is_up : String → Bool
is_up address = not (address == "10.0.1.2:8080")

abbrev first_backend : Destination String
first_backend = record {
  address = "10.0.1.1";
  stats = no_stats;
  weight = pos 5;
  active_connections = pos 0;
  inactive_connections = pos 0;
  connection_flags = 0;
  upper_threshold = 0;
  lower_threshold = 0;
  port = 8080;
  address_family = 2;
}

abbrev pub desired : GoMap ServiceKey (DesiredService String)
desired =
    (
      key_at "10.0.0.1",
      record {
        service = service_at "10.0.0.1" "wrr";
        destinations = first_backend ∷ [];
        config = web;
      },
    )
    ∷ []

pub desired_built :
    build_desired_state sample_std {E = FakeError} {F = Unit} is_up (web ∷ []) [] ≡ ok desired
unfolding build_desired_state ezlb.Lvs.Reconciler.Build.build_entry
    ezlb.Lvs.Types.config_to_ipvs_service ezlb.Lvs.Types.protocol_from_string
    ezlb.Lvs.Types.service_key_from_config build_destinations ezlb.Lvs.Reconciler.Build.is_skipped
    ezlb.Lvs.Types.config_to_ipvs_destination insert ezlb.Shared.Int.to_uint16
desired_built = refl

abbrev env : ezlb.Lvs.Reconciler.Env sample_std FakeError (Unit {0}) (FakeHandle String) FakeManager
env = fake_env sample_std in_order is_up (fake_manager in_order {F = Unit {0}})

pub web-AllCanonical : AllCanonical sample_std (web ∷ [])
web-AllCanonical = (λ host port ip p q. cc, tt)

managed-HasDistinctKeys : HasDistinctKeys start.managed
unfolding lookup
managed-HasDistinctKeys = (refl, tt)

abbrev backend_key : DestinationKey
backend_key = record { address = "10.0.1.1"; port = 8080 }

destinations_built : build_destinations sample_std is_up web backends ≡ ok (first_backend ∷ [])
unfolding build_destinations ezlb.Lvs.Reconciler.Build.is_skipped
    ezlb.Lvs.Types.config_to_ipvs_destination ezlb.Shared.Int.to_uint16
destinations_built = refl

reconcile-IsReconciled_example :
    IsReconciled sample_std desired start (reconcile sample_std env (web ∷ []) start).0
reconcile-IsReconciled_example =
    reconcile-IsReconciled sample_std in_order is_up (fake_manager in_order {F = Unit {0}})
      (web ∷ []) start desired desired_built web-AllCanonical kernel-IsWellFormed

reconcile-error_none_example : (reconcile sample_std env (web ∷ []) start).1 ≡ none
reconcile-error_none_example =
    reconcile-error_none sample_std in_order is_up (fake_manager in_order {F = Unit {0}}) (web ∷ [])
      start desired desired_built web-AllCanonical kernel-IsWellFormed (λ rules n. refl)
      (λ rules n. refl)

reconcile-reconcile_example :
    let w1 = (reconcile sample_std env (web ∷ []) start).0 in
    let w2 = (reconcile sample_std env (web ∷ []) w1).0 in
    (lookup (key_at "10.0.0.1") w2.kernel.services ≡ lookup (key_at "10.0.0.1") w1.kernel.services)
    × (destination_at sample_std (key_at "10.0.0.1") backend_key w2.kernel
        ≡ destination_at sample_std (key_at "10.0.0.1") backend_key w1.kernel)
reconcile-reconcile_example =
    reconcile-reconcile sample_std in_order is_up (fake_manager in_order {F = Unit {0}}) (web ∷ [])
      start desired desired_built web-AllCanonical kernel-IsWellFormed (key_at "10.0.0.1")
      backend_key

cleanup-IsDropped_example :
    let r = cleanup sample_std env start in
    (r.1 ≡ none)
    × IsDropped sample_std (λ j. is_some (lookup j start.managed)) start r.0
    × ((j : ServiceKey) → lookup j r.0.managed ≡ none)
cleanup-IsDropped_example =
    cleanup-IsDropped sample_std in_order is_up (fake_manager in_order {F = Unit {0}}) start
      kernel-IsWellFormed managed-HasDistinctKeys

build_destinations-IsServed_example :
    Memᴰ first_backend (first_backend ∷ []) ↔ IsServed sample_std is_up web backends first_backend
build_destinations-IsServed_example =
    build_destinations-IsServed sample_std is_up web backends (first_backend ∷ [])
      destinations_built first_backend

abbrev calls : List (Call String)
calls =
    Call.create (service_at "10.0.0.2" "rr")
    ∷ Call.attach (service_at "10.0.0.2" "rr") first_backend
    ∷ Call.create (service_at "10.0.0.2" "wrr")
    ∷ Call.remove (service_at "10.0.0.3" "rr")
    ∷ []

run-IsWellFormed_example : IsWellFormed sample_std (run sample_std calls new_ipvs_handle)
run-IsWellFormed_example = run-IsWellFormed sample_std calls
