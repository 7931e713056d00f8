-- ===== src/Server/CallbackSteps.antt =====
-- The steps of the health checks' callbacks keep the invariant.
use mathlib.Core.Path.{subst}
use ezlb.Shared.{◌≡◌, ◌∙◌, ap, sym, inl, inr, Bool, false, ◌||◌, List, ◌∷◌, ◌++◌, arith}
use ezlb.Shared.Eq.{string_eq}
use ezlb.Shared.Order.{RangeOrder}
use ezlb.Shared.Tests.{Bool-cases}
use ezlb.Std.{Std}
use ezlb.Config.{Config}
use ezlb.Config.Manager.{Viper}
use ezlb.Lvs.Handle.Fake.{FakeHandle, fake_handle}
use ezlb.Snat.{SnatManager}
use ezlb.Server.{Metrics, reconcile, update_health_metrics}
use ezlb.Server.Daemon.{Daemon, Callback, called, reconciled, triggered, is_targeted, has_pending}
use ezlb.Server.Settled.{IsUsable, reconcile-Serves}
use ezlb.Server.Steps.{IsSettled, AllUsable, has_pending-append, AllUsable-swap, AllUsable-drop}

module _ (std : Std) (o : RangeOrder) {D V G F N M : Type 0} (vip : Viper D V G)
    (sm : SnatManager F N) (mx : Metrics M) where
  open std use {IP}

  pub callback_read-IsSettled :
      (xs ys : List Callback) (d : Daemon V (FakeHandle IP) N M)
      → d.callbacks ≡ xs ++ called ∷ ys
      → IsSettled std o vip sm mx d
      → IsSettled std o vip sm mx
          (record d { callbacks = xs ++ triggered d.server.config_mgr.current ∷ ys })
  callback_read-IsSettled xs ys d at before =
      let cfg = d.server.config_mgr.current in
      record {
        well_formed = before.well_formed;
        usable = before.usable;
        callbacks_usable =
            AllUsable-swap std xs ys called (triggered cfg)
              (subst (AllUsable std) at before.callbacks_usable) before.usable;
        loop_read = before.loop_read;
        serves = inl (ground (arith, has_pending-append xs (triggered cfg ∷ ys)));
        applied_current = before.applied_current;
      }

  pub callback_reconciled-IsSettled :
      (xs ys : List Callback) (cfg : Config) (stale : Bool) (d : Daemon V (FakeHandle IP) N M)
      → d.callbacks ≡ xs ++ triggered cfg ∷ ys
      → (stale ≡ false → cfg ≡ d.server.config_mgr.current)
      → IsSettled std o vip sm mx d
      → IsSettled std o vip sm mx (record d {
        server = reconcile std (fake_handle std o) sm mx o cfg.services d.server;
        callbacks = xs ++ reconciled ∷ ys;
        applied = cfg;
        stale = stale;
      })
  unfolding reconcile
  callback_reconciled-IsSettled xs ys cfg stale d at fresh before =
      let all = subst (AllUsable std) at before.callbacks_usable in
      let usable : IsUsable std cfg = (AllUsable-drop std xs ys (triggered cfg) all).0 in
      let (wf', serves) = reconcile-Serves std o sm mx cfg d.server usable before.well_formed in
      record {
        well_formed = wf';
        usable = before.usable;
        callbacks_usable = AllUsable-swap std xs ys (triggered cfg) reconciled all tt;
        loop_read = before.loop_read;
        serves = inr serves;
        applied_current = inr (
            inr
              (elim (Bool-cases stale) [ inl old ↦ inl old | inr current ↦ inr (fresh current) ]));
      }

  pub callback_ended-IsSettled :
      (xs ys : List Callback) (d : Daemon V (FakeHandle IP) N M)
      → d.callbacks ≡ xs ++ reconciled ∷ ys
      → IsSettled std o vip sm mx d
      → IsSettled std o vip sm mx (record d {
        server = update_health_metrics std (fake_handle std o) sm mx o d.server;
        callbacks = xs ++ ys;
      })
  unfolding update_health_metrics
  callback_ended-IsSettled xs ys d at before =
      let same : has_pending d.callbacks ≡ has_pending (xs ++ ys) =
        ap has_pending at
        ∙ has_pending-append xs (reconciled ∷ ys)
        ∙ sym (has_pending-append xs ys) in
      record {
        well_formed = before.well_formed;
        usable = before.usable;
        callbacks_usable =
            (AllUsable-drop std xs ys reconciled
              (subst (AllUsable std) at before.callbacks_usable)).1;
        loop_read = before.loop_read;
        serves = elim before.serves [
          | inl due ↦ inl (ap (λ b. b || is_targeted d.loop) (sym same) ∙ due)
          | inr serving ↦ inr serving
        ];
        applied_current = before.applied_current;
      }
