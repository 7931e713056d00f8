-- ===== src/Healthcheck/Tests.antt =====
-- The health check manager on the backends of one service.
use ezlb.Shared.{◌≡◌, refl, true, false, some, [], ◌∷◌, String}
use ezlb.Shared.Eq.{◌==◌, string_eq, nat_eq}
use ezlb.Shared.GoMap.{lookup, insert}
use ezlb.Shared.Tests.{if◌then◌else◌, is_some}
use ezlb.Std.Sample.{sample_std, in_order}
use ezlb.Config.HealthCheck.{get_fail_count, get_rise_count}
use ezlb.Config.Sample.{web, checked}
use ezlb.Healthcheck.{
  BackendStatus, Manager, ServiceCheckConfig, new_manager, is_healthy, at_least, bool_neq,
  handle_check_result, start_backend_check,
}
use ezlb.Healthcheck.Update.{enabled_check, update_targets}
use ezlb.Healthcheck.Consistent.{IsConsistent, new_manager-IsConsistent}
use ezlb.Healthcheck.Reachable.{Reachable, Reachable-IsConsistent, Step}
use ezlb.Healthcheck.Targets.{update_targets-is_listed, is_listed}
use ezlb.Healthcheck.Thresholds.{
  results, failing, passing, is_healthy-hysteresis, handle_check_result-on_change,
}

abbrev address : String
address = "10.0.1.1:8080"

abbrev check : ServiceCheckConfig
check = enabled_check sample_std checked

abbrev fresh_status : BackendStatus
fresh_status = record {
  cancel = 0;
  address = address;
  consecutive_fails = 0;
  consecutive_ok = 0;
  healthy = true;
}

abbrev started : Manager
started = start_backend_check address check new_manager

started-tracked : lookup address started.statuses ≡ some fresh_status
unfolding lookup start_backend_check new_manager insert
started-tracked = refl

is_healthy-hysteresis_example :
    is_healthy address (results address check (true ∷ true ∷ true ∷ []) started) ≡ (
      if at_least (failing (true ∷ true ∷ true ∷ [])) (get_fail_count checked)
      then false
      else if at_least (passing (true ∷ true ∷ true ∷ [])) (get_rise_count checked)
      then true
      else is_healthy address (results address check (true ∷ true ∷ []) started))
is_healthy-hysteresis_example =
    is_healthy-hysteresis sample_std checked address started fresh_status started-tracked refl refl
      true (true ∷ true ∷ [])

-- Three failures, the default, mark the backend unhealthy.
unhealthy_after_three :
    is_healthy address (results address check (true ∷ true ∷ true ∷ []) started) ≡ false
unfolding get_fail_count
unhealthy_after_three =
    is_healthy-hysteresis sample_std checked address started fresh_status started-tracked refl refl
      true (true ∷ true ∷ [])

handle_check_result-on_change_example :
    let r = handle_check_result address true check started in
    (r.1 ≡ bool_neq (is_healthy address started) (is_healthy address r.0))
    × (lookup "10.0.1.2:8080" r.0.statuses ≡ (
        if address == "10.0.1.2:8080"
        then lookup address r.0.statuses
        else lookup "10.0.1.2:8080" started.statuses))
handle_check_result-on_change_example =
    handle_check_result-on_change address true check started "10.0.1.2:8080"

web_enabled : ezlb.Healthcheck.Targets.AllEnabled (web ∷ [])
unfolding ezlb.Config.HealthCheck.is_enabled
web_enabled = (refl, tt)

update_targets-is_listed_example :
    let m' = update_targets sample_std in_order (web ∷ []) new_manager in
    (is_some (lookup address m'.statuses) ≡ is_listed address (web ∷ []))
    × (is_healthy address m'
        ≡ (if is_listed address (web ∷ []) then is_healthy address new_manager else true))
update_targets-is_listed_example =
    update_targets-is_listed sample_std in_order (web ∷ []) new_manager new_manager-IsConsistent
      web_enabled address

Reachable-IsConsistent_example :
    IsConsistent (update_targets sample_std in_order (web ∷ []) new_manager)
Reachable-IsConsistent_example =
    Reachable-IsConsistent sample_std (update_targets sample_std in_order (web ∷ []) new_manager)
      (Reachable.after Reachable.start (Step.update in_order (web ∷ [])))
