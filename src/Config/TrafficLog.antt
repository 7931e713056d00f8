-- ===== src/Config/TrafficLog.antt =====
-- The getters of TrafficLogConfig (pkg/config/config.go), which supply defaults.
use ezlb.Shared.{Bool, Option, none, some, ◌*◌}
use ezlb.Shared.Int.{ℤ, pos, is_below}
use ezlb.Shared.Tests.{if◌then◌else◌}
use ezlb.Shared.Eq.{◌==◌, string_eq}
use ezlb.Std.{Std}
use ezlb.Config.{TrafficLogConfig, default_true, second}

unfoldable pub is_enabled : TrafficLogConfig → Bool
is_enabled t = default_true t.enabled

abbrev clamp_interval : Option ℤ → ℤ
clamp_interval none = pos (15 * second)
clamp_interval (some d) = if is_below d (5 * second) then pos (5 * second) else d

unfoldable pub get_interval : Std → TrafficLogConfig → ℤ
get_interval std t =
    if t.interval == "" then pos (15 * second) else clamp_interval (std.parse_duration t.interval)
