-- ===== src/Lvs/Reconciler/Build.antt =====
-- pkg/lvs/reconciler.go: buildDesiredState, and the rules that reconcileSNAT derives.
use ezlb.Shared.{String, Bool, not, ◌&&◌, List, [], ◌∷◌, ◌++◌}
use ezlb.Shared.Eq.{◌==◌, string_eq}
use ezlb.Shared.GoMap.{GoMap, insert}
use ezlb.Shared.Int.{to_uint16}
use ezlb.Shared.Result.{Result, ok, ◌>>=◌, or_fail, map_err}
use ezlb.Shared.Tests.{if◌then◌else◌}
use ezlb.Std.{Std}
use ezlb.Config.{ServiceConfig, BackendConfig}
use ezlb.Config.HealthCheck.{is_enabled}
use ezlb.Snat.{SnatRule, ForwardRule}
use ezlb.Lvs.Types.{
  ServiceKey, Destination, ConvertError, service_key_eq, service_key_from_config,
  config_to_ipvs_service, config_to_ipvs_destination,
}
use ezlb.Lvs.Reconciler.{
  DesiredService, SnatError, invalid_address, invalid_port, Failure, build_service, build_backend,
}

module _ (std : Std) where
  open std use {IP, split_host_port, atoi}

  -- svcCfg.HealthCheck.IsEnabled() && !r.healthMgr.IsHealthy(backendCfg.Address)
  unfoldable pub is_skipped : (String → Bool) → ServiceConfig → BackendConfig → Bool
  unfolding is_enabled
  is_skipped is_healthy svc backend =
      is_enabled svc.health_check && not (is_healthy backend.address)

  -- The inner loop of buildDesiredState.
  unfoldable pub build_destinations :
      (String → Bool)
      → ServiceConfig
      → List BackendConfig
      → Result (String × ConvertError) (List (Destination IP))
  build_destinations is_healthy svc [] = ok []
  build_destinations is_healthy svc (backend ∷ backends) =
      let rest = build_destinations is_healthy svc backends in
      if is_skipped is_healthy svc backend then rest else do
        dst ← map_err (λ e. (backend.address, e)) (config_to_ipvs_destination std backend)
        dsts ← rest
        ok (dst ∷ dsts)

  module _ {E F : Type 0} where
    -- The body of buildDesiredState's loop: the entry that it stores.
    unfoldable pub build_entry :
        (String → Bool) → ServiceConfig → Result (Failure IP E F) (ServiceKey × DesiredService IP)
    build_entry is_healthy svc = do
      service ← map_err (build_service svc.name) (config_to_ipvs_service std svc)
      key ← map_err (build_service svc.name) (service_key_from_config std svc)
      dsts ←
          map_err (λ e. build_backend svc.name e.0 e.1)
            (build_destinations is_healthy svc svc.backends)
      ok (key, record { service = service; destinations = dsts; config = svc })

    unfoldable pub build_desired_state :
        (String → Bool)
        → List ServiceConfig
        → GoMap ServiceKey (DesiredService IP)
        → Result (Failure IP E F) (GoMap ServiceKey (DesiredService IP))
    build_desired_state is_healthy [] result = ok result
    build_desired_state is_healthy (svc ∷ configs) result = do
      (key, desired) ← build_entry is_healthy svc
      build_desired_state is_healthy configs (insert key desired result)

  -- The two rules that the body of reconcileSNAT's inner loop appends.
  unfoldable pub snat_entry :
      {F : Type 0} → ServiceConfig → BackendConfig → Result (SnatError F) (SnatRule × ForwardRule)
  snat_entry svc backend = do
    (host, port_str) ←
        or_fail (split_host_port backend.address) (invalid_address svc.name backend.address)
    port ← or_fail (atoi port_str) (invalid_port svc.name backend.address)
    let protocol = if svc.protocol == "" then "tcp" else svc.protocol
    ok (
      record {
        backend_ip = host;
        protocol = protocol;
        snat_ip = svc.snat_ip;
        backend_port = to_uint16 port;
      },
      record { backend_ip = host; protocol = protocol; backend_port = to_uint16 port },
    )

  unfoldable pub snat_backends :
      {F : Type 0}
      → (String → Bool)
      → ServiceConfig
      → List BackendConfig
      → Result (SnatError F) (List (SnatRule × ForwardRule))
  snat_backends is_healthy svc [] = ok []
  snat_backends is_healthy svc (backend ∷ backends) =
      let rest = snat_backends is_healthy svc backends in
      if is_skipped is_healthy svc backend
      then rest
      else do rule ← snat_entry svc backend; rules ← rest; ok (rule ∷ rules)

  -- The rules that reconcileSNAT desires, in the order of the configuration.
  unfoldable pub snat_services :
      {F : Type 0}
      → (String → Bool)
      → List ServiceConfig
      → Result (SnatError F) (List (SnatRule × ForwardRule))
  snat_services is_healthy [] = ok []
  snat_services is_healthy (svc ∷ configs) =
      let rest = snat_services is_healthy configs in
      if not svc.full_nat
      then rest
      else do rules ← snat_backends is_healthy svc svc.backends; others ← rest; ok (rules ++ others)
