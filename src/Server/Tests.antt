-- ===== src/Server/Tests.antt =====
-- The daemon on the sample configuration, whose file changes once.
use ezlb.Shared.{◌≡◌, true, refl, ℕ, suc, String, false, ◌&&◌, ◌||◌, none, some, []}
use ezlb.Shared.Eq.{string_eq, nat_eq}
use ezlb.Shared.GoMap.{lookup}
use ezlb.Shared.Result.{Result, ok, err}
use ezlb.Shared.Tests.{if◌then◌else◌, is_some}
use ezlb.Std.Sample.{sample_std, in_order}
use ezlb.Config.{Config}
use ezlb.Config.Manager.Sample.{viper}
use ezlb.Config.Validate.Sample.{written, accepted, accepted_lem}
use ezlb.Healthcheck
use ezlb.Healthcheck.{Check, get_all_statuses}
use ezlb.Healthcheck.Consistent.{new_manager-IsConsistent}
use ezlb.Lvs.Handle.Fake.{FakeHandle, new_ipvs_handle, fake_handle}
use ezlb.Lvs.Handle.Laws.{IsWellFormed-new_ipvs_handle}
use ezlb.Lvs.Reconciler.Sample
use ezlb.Lvs.Types.{service_key_eq}
use ezlb.Lvs.Reconciler.Validated.{HasNumericPorts}
use ezlb.Snat.{SnatManager}
use ezlb.Snat.Fake
use ezlb.Snat.Fake.{FakeManager, fake_manager}
use ezlb.Config.Manager.{set_on_reload_callback}
use ezlb.Healthcheck.Update.{update_targets}
use ezlb.Server.{
  Server, Metrics, start, update_checks, settle, apply_config, handle_file_change,
  update_health_metrics,
}
use ezlb.Server.HealthMetrics.{call_each, health_calls, update_health_metrics-call_each}
use ezlb.Admin.{ServeMux}
use ezlb.Config.HealthCheck.{is_enabled}
use ezlb.Healthcheck.{is_healthy}
use ezlb.Healthcheck.Targets.{AllEnabled, is_listed}
use ezlb.Server.Daemon.{Daemon, waiting, targeted, Reachable}
use ezlb.Server.Turn.{apply_config-Serves}
use ezlb.Server.KernelParams.{
  has_passed, reads, log_kernel_param_preflight, log_kernel_param_preflight-reads,
}
use ezlb.Server.Settled.{IsUsable, Serves}

numeric_ports : HasNumericPorts sample_std written.services
numeric_ports = (λ host port p. cc, (λ host port p. cc, (λ host port p. cc, tt)), tt)

pub accepted-IsUsable : IsUsable sample_std accepted
accepted-IsUsable = (written, accepted_lem, numeric_ports, (λ host port ip p q. cc, tt))

-- The metrics that count reloads and changes of health.
abbrev pub metrics : Metrics ℕ
metrics = record {
  inc_config_reload = λ m. suc m;
  set_backend_health = λ service backend healthy m. suc m;
}

abbrev pub snat : SnatManager (Unit {0}) FakeManager
snat = fake_manager in_order {F = Unit {0}}

abbrev pub before : Server Config (FakeHandle String) FakeManager ℕ
before = record {
  config_mgr = record { viper = written; current = accepted; on_change = false; on_reload = none };
  health_mgr = Healthcheck.new_manager;
  world = record { kernel = new_ipvs_handle; snat = Fake.new_manager; managed = [] };
  admin_server = none;
  collector = none;
  metrics = 0;
}

abbrev no_mux : ServeMux (Unit {0})
no_mux = record { new_serve_mux = tt; handle = λ pattern h m. some tt }

abbrev no_listener : String → Result (Unit {0}) String
no_listener address = err tt

abbrev running : Server Config (FakeHandle String) FakeManager ℕ
running =
    update_checks sample_std (fake_handle sample_std in_order) snat metrics in_order accepted
      (record before {
        config_mgr = set_on_reload_callback metrics.inc_config_reload before.config_mgr;
      })

-- The daemon when it begins, once its file has changed, and once its first Reconcile has run.
abbrev begun : Daemon Config (FakeHandle String) FakeManager ℕ
begun = record {
  server = running;
  loop = targeted accepted;
  callbacks = [];
  applied = accepted;
  stale = false;
}

abbrev changed : Daemon Config (FakeHandle String) FakeManager ℕ
changed = record begun {
  server =
      handle_file_change sample_std (fake_handle sample_std in_order) snat metrics in_order viper
        (some written) running;
}

abbrev reconciled_once : Daemon Config (FakeHandle String) FakeManager ℕ
reconciled_once = record changed {
  server =
      settle sample_std (fake_handle sample_std in_order) snat metrics in_order accepted
        changed.server;
  loop = waiting;
}

accepted-AllEnabled : AllEnabled accepted.services
unfolding is_enabled
accepted-AllEnabled = (refl, tt)

apply_config-Serves_example :
    let t =
      apply_config sample_std
        (fake_handle sample_std in_order)
        snat
        metrics
        in_order
        accepted
        before in
    Serves sample_std in_order snat metrics accepted t
    × (is_some (lookup "10.0.1.1:8080" t.health_mgr.statuses)
        ≡ is_listed "10.0.1.1:8080" accepted.services)
    × (is_healthy "10.0.1.1:8080" t.health_mgr ≡ (
        if is_listed "10.0.1.1:8080" accepted.services
        then is_healthy "10.0.1.1:8080" before.health_mgr
        else true))
apply_config-Serves_example =
    apply_config-Serves sample_std in_order snat metrics accepted before accepted-IsUsable
      (IsWellFormed-new_ipvs_handle sample_std) new_manager-IsConsistent accepted-AllEnabled
      "10.0.1.1:8080"

abbrev over_services : Server Config (FakeHandle String) FakeManager ℕ
over_services = record before { world = Sample.start }

abbrev checked : Server Config (FakeHandle String) FakeManager ℕ
checked = record before {
  health_mgr = update_targets sample_std in_order accepted.services Healthcheck.new_manager;
}

update_health_metrics-call_each_example :
    (update_health_metrics sample_std
      (fake_handle sample_std in_order)
      snat
      metrics
      in_order
      checked).metrics
    ≡ call_each metrics
        (health_calls accepted.services (get_all_statuses checked.health_mgr.statuses))
        0
update_health_metrics-call_each_example =
    update_health_metrics-call_each sample_std (fake_handle sample_std in_order) snat metrics
      in_order checked

abbrev every_one : String → Result (Unit {0}) String
every_one path = ok "1"

log_kernel_param_preflight-reads_example :
    has_passed every_one
      (λ name. name)
      in_order
      (log_kernel_param_preflight every_one (λ name. name) in_order)
    ≡ (reads every_one (λ name. name) in_order "net.ipv4.ip_forward" "1"
        && reads every_one (λ name. name) in_order "net.ipv4.vs.conntrack" "1"
        && (reads every_one (λ name. name) in_order "net.ipv4.conf.all.rp_filter" "0"
            || reads every_one (λ name. name) in_order "net.ipv4.conf.all.rp_filter" "2")
        && (reads every_one (λ name. name) in_order "net.ipv4.conf.default.rp_filter" "0"
            || reads every_one (λ name. name) in_order "net.ipv4.conf.default.rp_filter" "2"))
log_kernel_param_preflight-reads_example =
    log_kernel_param_preflight-reads every_one (λ name. name) in_order
