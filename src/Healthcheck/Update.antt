-- ===== src/Healthcheck/Update.antt =====
-- UpdateTargets (pkg/healthcheck/manager.go).
use ezlb.Shared.{String, Bool, true, false, not, Option, none, some, List, [], ◌∷◌}
use ezlb.Shared.Eq.{◌==◌, nat_eq, string_eq}
use ezlb.Shared.GoMap.{GoMap, lookup, insert, delete}
use ezlb.Shared.Int.{pos}
use ezlb.Shared.Order.{RangeOrder}
use ezlb.Shared.Tests.{if◌then◌else◌}
use ezlb.Std.{Std}
use ezlb.Config.{ServiceConfig, BackendConfig, HealthCheckConfig}
use ezlb.Config.HealthCheck.{
  is_enabled, get_interval, get_timeout, get_type, get_http_path, get_http_expected_status,
  get_fail_count, get_rise_count,
}
use ezlb.Healthcheck.{
  ServiceCheckConfig, BackendStatus, Manager, http_checker, tcp_checker, Checker, stop_check,
  stop_service_backends, start_backend_check,
}

-- The loop over the backends of a service whose check is enabled.
unfoldable pub start_missing : List BackendConfig → ServiceCheckConfig → Manager → Manager
start_missing [] svc_check m = m
start_missing (backend ∷ backends) svc_check m =
    start_missing backends svc_check (elim (lookup backend.address m.statuses) [
      | none ↦ start_backend_check backend.address svc_check m
      | some status ↦ m
    ])

-- for _, backend := range backends { addresses[backend.Address] = true }
unfoldable pub add_addresses : List BackendConfig → GoMap String Bool → GoMap String Bool
add_addresses [] addresses = addresses
add_addresses (backend ∷ backends) addresses =
    add_addresses backends (insert backend.address true addresses)

abbrev pub was_enabled : Option ServiceCheckConfig → Bool
was_enabled none = false
was_enabled (some svc_check) = svc_check.enabled

-- &serviceCheckConfig{enabled: false}
abbrev pub disabled_check : ServiceCheckConfig
disabled_check = record {
  checker = none;
  interval = pos 0;
  fail_count = pos 0;
  rise_count = pos 0;
  enabled = false;
}

-- The checker of a service, by its type.
unfoldable pub checker_of : Std → HealthCheckConfig → Checker
unfolding get_type get_timeout get_http_path get_http_expected_status
checker_of std h =
    if get_type h == "http"
    then http_checker (get_timeout std h) (get_http_path h) (get_http_expected_status h)
    else tcp_checker (get_timeout std h)

unfoldable pub enabled_check : Std → HealthCheckConfig → ServiceCheckConfig
unfolding checker_of get_interval get_fail_count get_rise_count
enabled_check std h = record {
  checker = some (checker_of std h);
  interval = get_interval std h;
  fail_count = get_fail_count h;
  rise_count = get_rise_count h;
  enabled = true;
}

-- The body of UpdateTargets' loop over the services, as it changes the manager.
unfoldable pub update_service : Std → ServiceConfig → Manager → Manager
unfolding enabled_check is_enabled
update_service std svc m =
    let svc_check = enabled_check std svc.health_check in
    let stopped =
      if was_enabled (lookup svc.name m.services)
      then stop_service_backends svc.backends m
      else m in
    if not (is_enabled svc.health_check)
    then record stopped { services = insert svc.name disabled_check stopped.services }
    else start_missing svc.backends svc_check
        (record m { services = insert svc.name svc_check m.services })

unfoldable pub update_services : Std → List ServiceConfig → Manager → Manager
update_services std [] m = m
update_services std (svc ∷ services) m = update_services std services (update_service std svc m)

-- newBackendAddresses and newServiceNames, when the loop is done.
unfoldable pub all_addresses : List ServiceConfig → GoMap String Bool → GoMap String Bool
all_addresses [] addresses = addresses
all_addresses (svc ∷ services) addresses =
    all_addresses services (add_addresses svc.backends addresses)

unfoldable pub all_names : List ServiceConfig → GoMap String Bool → GoMap String Bool
all_names [] names = names
all_names (svc ∷ services) names = all_names services (insert svc.name true names)

-- The loop that forgets removed services.
unfoldable pub drop_services :
    GoMap String Bool
    → GoMap String ServiceCheckConfig
    → GoMap String ServiceCheckConfig
    → GoMap String ServiceCheckConfig
drop_services names [] services = services
drop_services names ((name, c) ∷ visited) services =
    drop_services names visited
      (elim (lookup name names) [ none ↦ delete name services | some _ ↦ services ])

-- The loop that stops the checks of removed backends.
unfoldable pub drop_backends : GoMap String Bool → GoMap String BackendStatus → Manager → Manager
drop_backends addresses [] m = m
drop_backends addresses ((address, status) ∷ visited) m =
    drop_backends addresses visited
      (elim (lookup address addresses) [ none ↦ stop_check address status m | some _ ↦ m ])

unfoldable pub update_targets : Std → RangeOrder → List ServiceConfig → Manager → Manager
update_targets std o services m =
    let m1 = update_services std services m in
    let m2 = record m1 {
      services = drop_services (all_names services []) (o.arrange m1.services) m1.services;
    } in
    drop_backends (all_addresses services []) (o.arrange m2.statuses) m2
