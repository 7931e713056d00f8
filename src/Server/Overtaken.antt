-- ===== src/Server/Overtaken.antt =====
-- A callback that a reload overtakes between its GetConfig and its Reconcile.
use mathlib.Core.Path.{subst}
use ezlb.Shared.{sym, ◌∙◌, ◌≡◌, refl, Bool, true, false, [], ◌∷◌}
use ezlb.Shared.Order.{RangeOrder}
use ezlb.Shared.Result.{ok}
use ezlb.Std.{Std}
use ezlb.Config.{Config}
use ezlb.Config.Manager.{Viper, load, receive_change}
use ezlb.Config.Manager.Reloads.{config_changed-ok}
use ezlb.Lvs.Handle.Fake.{FakeHandle, fake_handle}
use ezlb.Lvs.Handle.Laws.{IsWellFormed}
use ezlb.Snat.{SnatManager}
use ezlb.Server.{Server, Metrics, reconcile, update_checks, settle, handle_file_change}
use ezlb.Server.Daemon.{Daemon, waiting, Callback, called, reconciled, IsUsableFile, Step}
use ezlb.Server.Settled.{IsUsable, Serves, reconcile-Serves}

module _ (std : Std) (o : RangeOrder) {D V G F N M : Type 0} (vip : Viper D V G)
    (sm : SnatManager F N) (mx : Metrics M) where
  open std use {IP}

  pub data Steps (d : Daemon V (FakeHandle IP) N M) : Daemon V (FakeHandle IP) N M → Type 1 where
    done : Steps d d
    next :
        {d' d'' : Daemon V (FakeHandle IP) N M}
        → Steps d d'
        → Step std o vip sm mx d' d''
        → Steps d d''

  -- The daemon with the server `s`, an idle loop and one callback.
  abbrev pub idle :
      Server V (FakeHandle IP) N M → Callback → Config → Bool → Daemon V (FakeHandle IP) N M
  idle s callback applied stale = record {
    server = s;
    loop = waiting;
    callbacks = callback ∷ [];
    applied = applied;
    stale = stale;
  }

  module _ (s : Server V (FakeHandle IP) N M) (file : D) (new : Config)
      (loaded : (load std vip file s.config_mgr.viper).1 ≡ ok new) where
    abbrev old : Config
    old = s.config_mgr.current

    abbrev reloaded : Server V (FakeHandle IP) N M
    reloaded = handle_file_change std (fake_handle std o) sm mx o vip file s

    reloaded_lem :
        (reloaded.world ≡ s.world)
        × (reloaded.config_mgr.current ≡ new)
        × (reloaded.config_mgr.on_change ≡ true)
    unfolding handle_file_change
    reloaded_lem =
        rw (config_changed-ok std vip file s.config_mgr s.metrics new loaded) (refl, refl, refl)

    abbrev taken : Server V (FakeHandle IP) N M
    taken = record reloaded { config_mgr = receive_change reloaded.config_mgr }

    -- The loop's turn, and then the callback's Reconcile.
    abbrev pub turned : Server V (FakeHandle IP) N M
    turned =
        settle std (fake_handle std o) sm mx o taken.config_mgr.current
          (update_checks std (fake_handle std o) sm mx o taken.config_mgr.current taken)

    abbrev pub overtaken : Server V (FakeHandle IP) N M
    overtaken = reconcile std (fake_handle std o) sm mx o old.services turned

    overtaken-Steps :
        (applied : Config) (stale : Bool)
        → IsUsableFile std o vip sm mx file s.config_mgr.viper
        → ¬ (new ≡ s.config_mgr.current)
        → Steps (idle s called applied stale) (idle overtaken reconciled old true)
    unfolding update_checks receive_change settle reconcile
    overtaken-Steps applied stale usable differs =
        Steps.next
          (Steps.next
            (Steps.next
              (Steps.next
                (Steps.next
                  (Steps.next (Steps.next Steps.done (Step.callback_read [] [] refl))
                    (Step.file_changed file usable))
                  (Step.change_received refl reloaded_lem.2))
                (Step.config_read refl))
              (Step.targets_updated taken.config_mgr.current refl))
            (Step.turn_ended taken.config_mgr.current refl))
          (Step.callback_reconciled [] [] old true refl (λ p. absurd (cc (p)))
            (λ p same. differs (sym (same ∙ reloaded_lem.1))))

    -- Over a well-formed in-memory handle, where a callback of the health checks is about to read the
    -- configuration, the loop is idle, the current configuration is usable and Load accepts the changed
    -- file as a usable one other than the current: there are steps of the daemon, in which the callback reads the old
    -- configuration and reconciles it once the loop has finished its turn on the new one, after which
    -- the new configuration is current, no signal waits, the loop is idle and no Reconcile is due, but
    -- the kernel serves the old configuration.
    pub overtaken-Serves :
        (applied : Config) (stale : Bool)
        → IsWellFormed std s.world.kernel
        → IsUsable std s.config_mgr.current
        → IsUsableFile std o vip sm mx file s.config_mgr.viper
        → ¬ (new ≡ s.config_mgr.current)
        → (t : Server V (FakeHandle IP) N M) × Steps
            (idle s called applied stale)
            (idle t reconciled s.config_mgr.current true)
          × (t.config_mgr.current ≡ new)
          × (t.config_mgr.on_change ≡ false)
          × Serves std o sm mx s.config_mgr.current t
    unfolding update_checks receive_change settle reconcile
    overtaken-Serves applied stale wf usable usable_file differs =
        let h = update_checks std (fake_handle std o) sm mx o taken.config_mgr.current taken in
        let usable_new : IsUsable std taken.config_mgr.current =
          subst (IsUsable std) (sym reloaded_lem.1) (usable_file new loaded) in
        let wf1 : IsWellFormed std h.world.kernel =
          subst (λ w. IsWellFormed std w.kernel) (sym reloaded_lem.0) wf in
        let (wf2, served) =
          reconcile-Serves std o sm mx taken.config_mgr.current h usable_new wf1 in
        let (wf3, serves) = reconcile-Serves std o sm mx old turned usable wf2 in
        (overtaken, overtaken-Steps applied stale usable_file differs, reloaded_lem.1, refl, serves)
