-- ===== src/Server/Turn.antt =====
-- One turn of the main loop on a changed configuration, which nothing else comes between.
use ezlb.Shared.{◌≡◌, String, true}
use ezlb.Shared.GoMap.{lookup}
use ezlb.Shared.Eq.{string_eq}
use ezlb.Shared.Order.{RangeOrder}
use ezlb.Shared.Tests.{if◌then◌else◌, is_some}
use ezlb.Std.{Std}
use ezlb.Config.{Config}
use ezlb.Healthcheck.{is_healthy}
use ezlb.Healthcheck.Consistent.{IsConsistent}
use ezlb.Healthcheck.Targets.{AllEnabled, is_listed, update_targets-is_listed}
use ezlb.Lvs.Handle.Fake.{FakeHandle, fake_handle}
use ezlb.Lvs.Handle.Laws.{IsWellFormed}
use ezlb.Snat.{SnatManager}
use ezlb.Server.{Server, Metrics, reconcile, update_checks, settle, apply_config}
use ezlb.Server.Settled.{IsUsable, Serves, reconcile-Serves}

module _ (std : Std) (o : RangeOrder) {F V N M : Type 0} (sm : SnatManager F N)
    (mx : Metrics M) where
  open std use {IP}

  -- Over a well-formed in-memory handle and a consistent health check manager, UpdateTargets, Reconcile
  -- and syncTrafficCollector for a usable configuration whose services all have health checks on, with
  -- nothing in between, leave IPVS serving the configuration with the answers of the health checks, and
  -- exactly its backends tracked: one that was tracked with the health it had, the others healthy.
  pub apply_config-Serves :
      (cfg : Config) (s : Server V (FakeHandle IP) N M)
      → IsUsable std cfg
      → IsWellFormed std s.world.kernel
      → IsConsistent s.health_mgr
      → AllEnabled cfg.services
      → (address : String)
      → let t = apply_config std (fake_handle std o) sm mx o cfg s in
        Serves std o sm mx cfg t
        × (is_some (lookup address t.health_mgr.statuses) ≡ is_listed address cfg.services)
        × (is_healthy address t.health_mgr
            ≡ (if is_listed address cfg.services then is_healthy address s.health_mgr else true))
  unfolding apply_config settle update_checks reconcile
  apply_config-Serves cfg s usable wf consistent on address =
      let (tracked, answer) =
        update_targets-is_listed std o cfg.services s.health_mgr consistent on address in
      let s1 = update_checks std (fake_handle std o) sm mx o cfg s in
      ((reconcile-Serves std o sm mx cfg s1 usable wf).1, tracked, answer)
