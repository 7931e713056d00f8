-- ===== src/Server/Daemon.antt =====
-- The daemon over the in-memory handle: the goroutine of Run, with its main loop, those of the health
-- checks, whose callback newServerWithManager gives, and the file watcher. Each holds what it has read;
-- every lock of the managers and of the reconciler is held within one step.
use ezlb.Shared.{◌≡◌, ℕ, String, Bool, true, false, some, List, [], ◌∷◌, ◌++◌, ◌||◌}
use ezlb.Shared.Eq.{nat_eq}
use ezlb.Shared.GoMap.{lookup}
use ezlb.Shared.Order.{RangeOrder}
use ezlb.Shared.Result.{Result, ok}
use ezlb.Shared.Tests.{if◌then◌else◌}
use ezlb.Admin.{ServeMux}
use ezlb.Std.{Std}
use ezlb.Config.{Config}
use ezlb.Config.Manager.{Viper, load, receive_change, get_config}
use ezlb.Healthcheck.{Check}
use ezlb.Lvs.Handle.Fake.{FakeHandle, fake_handle}
use ezlb.Snat.{SnatManager}
use ezlb.Server.{
  Server, Metrics, reconcile, update_health_metrics, update_checks, settle, start, probe,
  handle_file_change,
}
use ezlb.Server.Settled.{IsUsable}

-- Where the main loop is: before the receive, after it, and with the configuration that GetConfig has
-- returned, before and after UpdateTargets.
pub data Loop : Type 0 where
  waiting received : Loop
  holding targeted : Config → Loop

-- Where a call of onChange is: before triggerReconcile's GetConfig, with what that has returned, and
-- before updateHealthMetrics.
pub data Callback : Type 0 where
  called reconciled : Callback
  triggered : Config → Callback

-- `applied` is the configuration of the last Reconcile, and `stale` whether that was a callback's
-- while another configuration was current.
pub record Daemon (V S N M : Type 0) : Type 0 where
  pub server : Server V S N M
  pub loop : Loop
  pub callbacks : List Callback
  pub applied : Config
  pub stale : Bool

-- The loop has begun a turn.
abbrev pub is_busy : Loop → Bool
is_busy waiting = false
is_busy received = true
is_busy (holding cfg) = true
is_busy (targeted cfg) = true

-- The loop has a Reconcile before it whose health checks it has changed.
abbrev pub is_targeted : Loop → Bool
is_targeted waiting = false
is_targeted received = false
is_targeted (holding cfg) = false
is_targeted (targeted cfg) = true

-- One of the callbacks has its Reconcile before it.
abbrev pub has_pending : List Callback → Bool
has_pending [] = false
has_pending (called ∷ callbacks) = true
has_pending (triggered cfg ∷ callbacks) = true
has_pending (reconciled ∷ callbacks) = has_pending callbacks

abbrev pub is_pending : {V S N M : Type 0} → Daemon V S N M → Bool
is_pending d = has_pending d.callbacks || is_targeted d.loop

module _ (std : Std) (o : RangeOrder) {D V G F N M : Type 0} (vip : Viper D V G)
    (sm : SnatManager F N) (mx : Metrics M) where
  open std use {IP}

  -- Whatever Load accepts of the file is usable.
  abbrev pub IsUsableFile : D → V → Type 0
  IsUsableFile file v = (cfg : Config) → (load std vip file v).1 ≡ ok cfg → IsUsable std cfg

  pub data Step : Daemon V (FakeHandle IP) N M → Daemon V (FakeHandle IP) N M → Type 1 where
    file_changed :
        {d : Daemon V (FakeHandle IP) N M} (file : D)
        → IsUsableFile file d.server.config_mgr.viper
        → Step d (record d {
          server = handle_file_change std (fake_handle std o) sm mx o vip file d.server;
        })
    change_received :
        {d : Daemon V (FakeHandle IP) N M}
        → d.loop ≡ waiting
        → d.server.config_mgr.on_change ≡ true
        → Step d (record d {
          server = record d.server { config_mgr = receive_change d.server.config_mgr };
          loop = received;
        })
    config_read :
        {d : Daemon V (FakeHandle IP) N M}
        → d.loop ≡ received
        → Step d (record d { loop = holding (get_config d.server.config_mgr) })
    targets_updated :
        {d : Daemon V (FakeHandle IP) N M} (cfg : Config)
        → d.loop ≡ holding cfg
        → Step d (record d {
          server = update_checks std (fake_handle std o) sm mx o cfg d.server;
          loop = targeted cfg;
        })
    turn_ended :
        {d : Daemon V (FakeHandle IP) N M} (cfg : Config)
        → d.loop ≡ targeted cfg
        → Step d (record d {
          server = settle std (fake_handle std o) sm mx o cfg d.server;
          loop = waiting;
          applied = cfg;
          stale = false;
        })
    probed :
        {d : Daemon V (FakeHandle IP) N M} (id : ℕ) (check : Check) (failed : Bool)
        → lookup id d.server.health_mgr.checks ≡ some check
        → Step d (record d {
          server = (probe std (fake_handle std o) sm mx o check failed d.server).0;
          callbacks =
              if (probe std (fake_handle std o) sm mx o check failed d.server).1
              then called ∷ d.callbacks
              else d.callbacks;
        })
    callback_read :
        {d : Daemon V (FakeHandle IP) N M} (before after : List Callback)
        → d.callbacks ≡ before ++ called ∷ after
        → Step d
            (record d { callbacks = before ++ triggered (get_config d.server.config_mgr) ∷ after })
    callback_reconciled :
        {d : Daemon V (FakeHandle IP) N M} (before after : List Callback) (cfg : Config)
        (stale : Bool)
        → d.callbacks ≡ before ++ triggered cfg ∷ after
        → (stale ≡ false → cfg ≡ d.server.config_mgr.current)
        → (stale ≡ true → ¬ (cfg ≡ d.server.config_mgr.current))
        → Step d (record d {
          server = reconcile std (fake_handle std o) sm mx o cfg.services d.server;
          callbacks = before ++ reconciled ∷ after;
          applied = cfg;
          stale = stale;
        })
    callback_ended :
        {d : Daemon V (FakeHandle IP) N M} (before after : List Callback)
        → d.callbacks ≡ before ++ reconciled ∷ after
        → Step d (record d {
          server = update_health_metrics std (fake_handle std o) sm mx o d.server;
          callbacks = before ++ after;
        })

  module _ {X L : Type 0} (mux : ServeMux X) (listen : String → Result L String) where
    -- The states that Run, from `s`, leads to.
    pub data Reachable (s : Server V (FakeHandle IP) N M)
        : Daemon V (FakeHandle IP) N M → Type 1 where
      started :
          {t : Server V (FakeHandle IP) N M}
          → start std (fake_handle std o) sm mx o mux listen s ≡ some t
          → Reachable s (record {
            server = t;
            loop = targeted (get_config s.config_mgr);
            callbacks = [];
            applied = get_config s.config_mgr;
            stale = false;
          })
      after : {d d' : Daemon V (FakeHandle IP) N M} → Reachable s d → Step d d' → Reachable s d'
