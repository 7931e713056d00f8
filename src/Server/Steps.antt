-- ===== src/Server/Steps.antt =====
-- The invariant of the daemon's steps, and that each step keeps it.
use mathlib.Core.Path.{fun_ext, subst}
use ezlb.Shared.{
  ◌≡◌, refl, inl, inr, ◌⊎◌, String, Bool, true, false, ◌||◌, List, [], ◌∷◌, ◌++◌, arith,
}
use ezlb.Shared.Eq.{string_eq, ==_iff}
use ezlb.Shared.Order.{RangeOrder}
use ezlb.Shared.Result.{ok, Result-cases}
use ezlb.Shared.Tests.{if◌then◌else◌, Bool-cases}
use ezlb.Std.{Std}
use ezlb.Config.{Config}
use ezlb.Config.Manager.{Viper, load}
use ezlb.Config.Manager.Reloads.{config_changed-err, config_changed-ok}
use ezlb.Healthcheck
use ezlb.Healthcheck.{Check, handle_check_result, is_healthy, bool_neq, ServiceCheckConfig}
use ezlb.Healthcheck.Thresholds.{handle_check_result-on_change}
use ezlb.Lvs.Handle.Fake.{FakeHandle, FakeError, fake_handle}
use ezlb.Lvs.Handle.Laws.{IsWellFormed}
use ezlb.Lvs.Reconciler.Build.{build_desired_state}
use ezlb.Snat.{SnatManager}
use ezlb.Server.{Metrics, reconcile, settle, probe, handle_file_change}
use ezlb.Server.Daemon.{
  Daemon, Loop, waiting, received, holding, targeted, Callback, called, reconciled, triggered,
  is_busy, has_pending, is_pending, IsUsableFile,
}
use ezlb.Server.Settled.{IsUsable, Serves, reconcile-Serves}

-- A probe that does not call onChange changes no answer of IsHealthy.
same_health :
    (address : String) (failed : Bool) (c : ServiceCheckConfig) (m : Healthcheck.Manager)
    → (handle_check_result address failed c m).1 ≡ false
    → (j : String) → is_healthy j m ≡ is_healthy j (handle_check_result address failed c m).0
unfolding is_healthy
same_health address failed c m quiet j =
    let (change, others) = handle_check_result-on_change address failed c m j in
    ground (arith, quiet, change, others, ==_iff {A = String} address j)

pub has_pending-append :
    (xs ys : List Callback) → has_pending (xs ++ ys) ≡ (has_pending xs || has_pending ys)
has_pending-append [] ys = refl
has_pending-append (called ∷ xs) ys = refl
has_pending-append (triggered cfg ∷ xs) ys = refl
has_pending-append (reconciled ∷ xs) ys = has_pending-append xs ys

module _ (std : Std) where
  abbrev pub IsUsableAt : Callback → Type 0
  IsUsableAt called = Unit {0}
  IsUsableAt reconciled = Unit {0}
  IsUsableAt (triggered cfg) = IsUsable std cfg

  -- The configurations that the callbacks have read are usable.
  abbrev pub AllUsable : List Callback → Type 0
  AllUsable [] = Unit {0}
  AllUsable (c ∷ callbacks) = IsUsableAt c × AllUsable callbacks

  pub AllUsable-swap :
      (before after : List Callback) (c c' : Callback)
      → AllUsable (before ++ c ∷ after)
      → IsUsableAt c'
      → AllUsable (before ++ c' ∷ after)
  AllUsable-swap [] after c c' all u = (u, all.1)
  AllUsable-swap (b ∷ before) after c c' all u = (all.0, AllUsable-swap before after c c' all.1 u)

  pub AllUsable-drop :
      (before after : List Callback) (c : Callback)
      → AllUsable (before ++ c ∷ after)
      → IsUsableAt c × AllUsable (before ++ after)
  AllUsable-drop [] after c all = all
  AllUsable-drop (b ∷ before) after c all =
      let (here, rest) = AllUsable-drop before after c all.1 in (here, (all.0, rest))

  -- What the loop has read is usable, and current where no signal waits.
  abbrev pub IsReadAt : Config → Bool → Loop → Type 0
  IsReadAt current signal waiting = Unit {0}
  IsReadAt current signal received = Unit {0}
  IsReadAt current signal (holding cfg) = IsUsable std cfg × ((signal ≡ true) ⊎ (cfg ≡ current))
  IsReadAt current signal (targeted cfg) = IsUsable std cfg × ((signal ≡ true) ⊎ (cfg ≡ current))

  IsReadAt-signal :
      (current other : Config) (signal : Bool) (loop : Loop)
      → IsReadAt current signal loop
      → IsReadAt other true loop
  IsReadAt-signal current other signal waiting r = tt
  IsReadAt-signal current other signal received r = tt
  IsReadAt-signal current other signal (holding cfg) r = (r.0, inl refl)
  IsReadAt-signal current other signal (targeted cfg) r = (r.0, inl refl)

module _ (std : Std) (o : RangeOrder) {D V G F N M : Type 0} (vip : Viper D V G)
    (sm : SnatManager F N) (mx : Metrics M) where
  open std use {IP}

  -- A Reconcile is still due after a change of the health checks, or the kernel serves the
  -- configuration of the last one; and a signal waits, the loop has begun a turn, the last Reconcile
  -- was given a configuration that a callback had read before a reload, or it is the current one.
  pub record IsSettled (d : Daemon V (FakeHandle IP) N M) : Type 0 where
    pub well_formed : IsWellFormed std d.server.world.kernel
    pub usable : IsUsable std d.server.config_mgr.current
    pub callbacks_usable : AllUsable std d.callbacks
    pub loop_read : IsReadAt std d.server.config_mgr.current d.server.config_mgr.on_change d.loop
    pub serves : (is_pending d ≡ true) ⊎ Serves std o sm mx d.applied d.server
    pub applied_current :
        (d.server.config_mgr.on_change ≡ true)
        ⊎ (is_busy d.loop ≡ true)
        ⊎ (d.stale ≡ true)
        ⊎ (d.applied ≡ d.server.config_mgr.current)

  pub file_changed-IsSettled :
      (file : D) (d : Daemon V (FakeHandle IP) N M)
      → IsUsableFile std o vip sm mx file d.server.config_mgr.viper
      → IsSettled d
      → IsSettled (record d {
        server = handle_file_change std (fake_handle std o) sm mx o vip file d.server;
      })
  unfolding handle_file_change
  file_changed-IsSettled file d usable before =
      let m = d.server.config_mgr in
      elim (Result-cases (load std vip file m.viper).1) [
        | inl (e, failed) ↦
            rw (config_changed-err std vip file m d.server.metrics e failed) (record {
              well_formed = before.well_formed;
              usable = before.usable;
              callbacks_usable = before.callbacks_usable;
              loop_read = before.loop_read;
              serves = before.serves;
              applied_current = before.applied_current;
            })
        | inr (cfg, loaded) ↦
            rw (config_changed-ok std vip file m d.server.metrics cfg loaded) (record {
              well_formed = before.well_formed;
              usable = usable cfg loaded;
              callbacks_usable = before.callbacks_usable;
              loop_read = IsReadAt-signal std m.current cfg m.on_change d.loop before.loop_read;
              serves = before.serves;
              applied_current = inl refl;
            })
      ]

  pub turn_ended-IsSettled :
      (cfg : Config) (d : Daemon V (FakeHandle IP) N M)
      → d.loop ≡ targeted cfg
      → IsSettled d
      → IsSettled (record d {
        server = settle std (fake_handle std o) sm mx o cfg d.server;
        loop = waiting;
        applied = cfg;
        stale = false;
      })
  unfolding settle reconcile
  turn_ended-IsSettled cfg d at before =
      let m = d.server.config_mgr in
      let (usable, read) : IsUsable std cfg × ((m.on_change ≡ true) ⊎ (cfg ≡ m.current)) =
        subst (IsReadAt std m.current m.on_change) at before.loop_read in
      let (wf', serves) = reconcile-Serves std o sm mx cfg d.server usable before.well_formed in
      record {
        well_formed = wf';
        usable = before.usable;
        callbacks_usable = before.callbacks_usable;
        loop_read = tt;
        serves = inr serves;
        applied_current = elim read [ inl signal ↦ inl signal | inr same ↦ inr (inr (inr same)) ];
      }

  pub probed-IsSettled :
      (check : Check) (failed : Bool) (d : Daemon V (FakeHandle IP) N M)
      → IsSettled d
      → IsSettled (record d {
        server = (probe std (fake_handle std o) sm mx o check failed d.server).0;
        callbacks =
            if (probe std (fake_handle std o) sm mx o check failed d.server).1
            then called ∷ d.callbacks
            else d.callbacks;
      })
  unfolding probe
  probed-IsSettled check failed d before =
      let health = d.server.health_mgr in
      let r = handle_check_result check.address failed check.svc_check health in
      elim (Bool-cases r.1) [
        | inl changed ↦ rw changed (record {
          well_formed = before.well_formed;
          usable = before.usable;
          callbacks_usable = (tt, before.callbacks_usable);
          loop_read = before.loop_read;
          serves = inl refl;
          applied_current = before.applied_current;
        })
        | inr quiet ↦ rw quiet (record {
          well_formed = before.well_formed;
          usable = before.usable;
          callbacks_usable = before.callbacks_usable;
          loop_read = before.loop_read;
          serves = elim before.serves [
            | inl due ↦ inl due
            | inr (dm, built, serving) ↦ inr (
              dm,
              subst
                  (λ f.
                    build_desired_state std {E = FakeError} {F = F} f d.applied.services [] ≡ ok dm)
                  (fun_ext (same_health check.address failed check.svc_check health quiet)) built,
              serving,
            )
          ];
          applied_current = before.applied_current;
        })
      ]
