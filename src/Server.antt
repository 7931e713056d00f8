-- ===== src/Server.antt =====
-- pkg/server/server.go: the server over the state `V` of viper, `S` of IPVS and `N` of the SNAT
-- manager, and the metrics `M`. Each part of the main loop and of the callbacks, and each change of
-- the file, is one function; Daemon has the orders in which they run, which triggerReconcile
-- shares; what they log is left out. `listen` is net.Listen.
pub mod Settled
pub mod Daemon
pub mod Steps
pub mod CallbackSteps
pub mod Overtaken
pub mod Turn
pub mod Reachable
pub mod Shutdown
pub mod HealthMetrics
pub mod KernelParams
mod Tests
mod OvertakenTests
use ezlb.Shared.{String, Bool, true, false, Option, none, some, List, [], ◌∷◌}
use ezlb.Shared.Eq.{◌==◌, string_eq}
use ezlb.Shared.GoMap.{GoMap, lookup, insert}
use ezlb.Shared.Order.{RangeOrder}
use ezlb.Shared.Result.{Result, ok, err}
use ezlb.Shared.Tests.{if◌then◌else◌}
use ezlb.Admin.{AdminConfig, Handler, ServeMux, is_panicked, new_admin_server, start_admin}
use ezlb.Std.{Std}
use ezlb.Config.{Config, ServiceConfig, BackendConfig}
use ezlb.Config.Global.{is_cleanup_on_exit, is_metrics_enabled, get_metrics_path}
use ezlb.Config.Manager
use ezlb.Config.Manager.{
  Viper, LoadError, ConfigManager, config_changed, set_on_reload_callback, get_config,
}
use ezlb.Config.TrafficLog
use ezlb.Healthcheck
use ezlb.Healthcheck.{Check, handle_check_result, get_all_statuses}
use ezlb.Healthcheck.Update.{update_targets}
use ezlb.Lvs.Handle.{IpvsHandle}
use ezlb.Lvs.Manager as LvsManager
use ezlb.Lvs.Reconciler.{World, Env, Failure}
use ezlb.Lvs.Reconciler.Run
use ezlb.Lvs.Reconciler.Run.{new_world}
use mathlib.Core.Option
use ezlb.Metrics.{Prometheus, inc_config_reload, set_backend_health}
use ezlb.Snat.{SnatManager}
use ezlb.Trafficlog.Collector.{Collector, new_collector, update_config, stop_collector}

-- The calls of pkg/metrics.
pub record Metrics (M : Type 0) : Type 0 where
  pub inc_config_reload : M → M
  pub set_backend_health : String → String → Bool → M → M

-- pkg/metrics, over the Prometheus client.
abbrev pub prometheus_metrics : {R Fl : Type 0} → Prometheus R Fl → Metrics R
prometheus_metrics prom = record {
  inc_config_reload = inc_config_reload prom;
  set_backend_health = set_backend_health prom;
}

pub record Server (V S N M : Type 0) : Type 0 where
  pub config_mgr : ConfigManager V M
  pub health_mgr : Healthcheck.Manager
  pub world : World S N  -- the reconciler, with lvsMgr's and snatMgr's states
  pub admin_server : Option AdminConfig
  pub collector : Option Collector
  pub metrics : M

abbrev pub admin_config : Config → AdminConfig
admin_config cfg = record {
  listen_addr = cfg.global.admin_address;
  metrics_enabled = is_metrics_enabled cfg.global;
  metrics_path = get_metrics_path cfg.global;
}

-- The collector after syncTrafficCollector.
unfoldable pub sync_traffic_collector : Config → Option Collector → Option Collector
sync_traffic_collector cfg none =
    if TrafficLog.is_enabled cfg.global.log.traffic
    then some (new_collector cfg.services cfg.global.log.traffic)
    else none
sync_traffic_collector cfg (some c) = some (update_config cfg.services cfg.global.log.traffic c)

unfoldable pub add_backends :
    String → List BackendConfig → GoMap String String → GoMap String String
add_backends name [] m = m
add_backends name (backend ∷ backends) m =
    add_backends name backends (insert backend.address name m)

-- The map backendToService of updateHealthMetrics.
unfoldable pub backend_to_service : List ServiceConfig → GoMap String String → GoMap String String
backend_to_service [] m = m
backend_to_service (svc ∷ services) m =
    backend_to_service services (add_backends svc.name svc.backends m)

-- m[address], and "unknown" where that is empty
abbrev pub name_or_unknown : Option String → String
name_or_unknown none = "unknown"
name_or_unknown (some name) = if name == "" then "unknown" else name

module _ {M : Type 0} (mx : Metrics M) where
  unfoldable pub set_health : GoMap String String → GoMap String Bool → M → M
  set_health names [] metrics = metrics
  set_health names ((address, healthy) ∷ statuses) metrics =
      set_health names statuses
        (mx.set_backend_health (name_or_unknown (lookup address names)) address healthy metrics)

module _ (std : Std) {E F S N M : Type 0} (handle : IpvsHandle std.IP E S) (sm : SnatManager F N)
    (mx : Metrics M) (o : RangeOrder) where
  -- What the reconciler holds; IsHealthy is that of the health check manager.
  abbrev pub env_of : Healthcheck.Manager → Env std E F S N
  env_of health = record {
    handle = handle;
    is_healthy = λ address. Healthcheck.is_healthy address health;
    snat_mgr = sm;
    order = o;
  }

  module _ {V : Type 0} where
    -- s.reconciler.Reconcile(services), whose error is only logged
    unfoldable pub reconcile : List ServiceConfig → Server V S N M → Server V S N M
    reconcile services s = record s {
      world = (Run.reconcile std (env_of s.health_mgr) services s.world).0;
    }

    unfoldable pub update_health_metrics : Server V S N M → Server V S N M
    update_health_metrics s =
        let cfg = get_config s.config_mgr in
        let statuses = o.arrange (get_all_statuses s.health_mgr.statuses) in
        record s { metrics = set_health mx (backend_to_service cfg.services []) statuses s.metrics }

    -- s.healthMgr.UpdateTargets(ctx, cfg.Services)
    unfoldable pub update_checks : Config → Server V S N M → Server V S N M
    update_checks cfg s = record s { health_mgr = update_targets std o cfg.services s.health_mgr }

    -- Reconcile and syncTrafficCollector for the configuration.
    unfoldable pub settle : Config → Server V S N M → Server V S N M
    settle cfg s =
        let s' = reconcile cfg.services s in
        record s' { collector = sync_traffic_collector cfg s'.collector }

    -- UpdateTargets, Reconcile and syncTrafficCollector for the configuration.
    unfoldable pub apply_config : Config → Server V S N M → Server V S N M
    apply_config cfg s = settle cfg (update_checks cfg s)

    -- Run up to its first Reconcile, which `settle` does; `none` where Start of the admin server panics.
    unfoldable pub start :
        {X L : Type 0}
        → ServeMux X
        → (String → Result L String)
        → Server V S N M
        → Option (Server V S N M)
    start mux listen s =
        let cfg = get_config s.config_mgr in
        let config_mgr = set_on_reload_callback mx.inc_config_reload s.config_mgr in
        let admin = new_admin_server (admin_config cfg) in
        if cfg.global.admin_address == ""
        then some (update_checks cfg (record s { config_mgr = config_mgr }))
        else if is_panicked (start_admin mux std.split_host_port listen admin)
        then none
        else some (
            update_checks cfg
              (record s { admin_server = some (admin_config cfg); config_mgr = config_mgr }))

    -- A probe of `check` has an answer, with whether onChange is called after it.
    unfoldable pub probe : Check → Bool → Server V S N M → Server V S N M × Bool
    probe check failed s =
        let (health, changed) =
          handle_check_result check.address failed check.svc_check s.health_mgr in
        (record s { health_mgr = health }, changed)

    -- s.lvsMgr.Close()
    abbrev pub close_lvs : Server V S N M → Server V S N M
    close_lvs s = record s {
      world = record s.world { kernel = LvsManager.close handle s.world.kernel };
    }

    -- Stop of the admin server is that of net/http and changes nothing here.
    unfoldable pub shutdown : Server V S N M → Server V S N M
    shutdown s =
        let s' = record s {
          collector = Option.map stop_collector s.collector;
          health_mgr = Healthcheck.stop o s.health_mgr;
        } in
        close_lvs (
          if is_cleanup_on_exit (get_config s.config_mgr).global
          then (let w = (Run.cleanup std (env_of s'.health_mgr) s.world).0 in
              record s' { world = record w { snat = (sm.cleanup w.snat).0 } })
          else s')

    -- RunOnce, with the error of its Reconcile.
    unfoldable pub run_once : Server V S N M → Server V S N M × Option (Failure std.IP E F)
    run_once s =
        let (w, e) =
          Run.reconcile std (env_of s.health_mgr) (get_config s.config_mgr).services s.world in
        (close_lvs (record s { world = w }), e)

    -- The handler of WatchConfig, when the file has changed.
    unfoldable pub handle_file_change :
        {D G : Type 0} → Viper D V G → D → Server V S N M → Server V S N M
    handle_file_change vip file s =
        let (config, metrics) = config_changed std vip file s.config_mgr s.metrics in
        record s { config_mgr = config; metrics = metrics }

    -- newServerWithManager, once snat.NewManager has returned the state `n`.
    unfoldable pub new_server :
        {D G : Type 0}
        → Viper D V G
        → String
        → D
        → S
        → N
        → M
        → Result (LoadError G) (Server V S N M)
    new_server vip config_path file kernel n metrics =
        elim (Manager.new_manager std vip config_path file) [
          | err e ↦ err e
          | ok config ↦ ok (record {
            config_mgr = config;
            health_mgr = Healthcheck.new_manager;
            world = new_world kernel n;
            admin_server = none;
            collector = none;
            metrics = metrics;
          })
        ]
