-- ===== src/Server/Shutdown.antt =====
-- What the server leaves behind when it stops.
use ezlb.Shared.{Bool, Option, some, false, none}
use ezlb.Shared.Eq.{nat_eq, string_eq}
use ezlb.Shared.Order.{RangeOrder}
use ezlb.Std.{Std}
use ezlb.Config.Global.{is_cleanup_on_exit}
use ezlb.Healthcheck
use ezlb.Healthcheck.{Check}
use ezlb.Lvs.Types.{service_key_eq}
use ezlb.Lvs.Handle.Fake.{FakeHandle, fake_handle, close as close_fake}
use ezlb.Lvs.Manager.{close as close_manager}
use ezlb.Snat.{SnatManager}
use ezlb.Server.{Server, Metrics, shutdown}

abbrev pub is_live : Option Check → Bool
is_live none = false
is_live (some c) = c.live

module _ (std : Std) (o : RangeOrder) {F V N M : Type 0} (sm : SnatManager F N) (mx : Metrics M)
    (s : Server V (FakeHandle std.IP) N M) where
  abbrev cleans : Bool
  cleans = is_cleanup_on_exit s.config_mgr.current.global

  abbrev stopped : Server V (FakeHandle std.IP) N M
  stopped = shutdown std (fake_handle std o) sm mx o s
