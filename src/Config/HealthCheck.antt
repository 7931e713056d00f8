-- ===== src/Config/HealthCheck.antt =====
-- The getters of HealthCheckConfig (pkg/config/config.go), which supply defaults.
use ezlb.Shared.{String, Bool, ◌*◌}
use ezlb.Shared.Int.{ℤ, pos}
use ezlb.Shared.Tests.{if◌then◌else◌}
use ezlb.Shared.Eq.{◌==◌, string_eq}
use ezlb.Std.{Std}
use ezlb.Config.{
  HealthCheckConfig, default_text, default_true, default_positive, duration_or, second,
}

unfoldable pub is_enabled : HealthCheckConfig → Bool
is_enabled h = default_true h.enabled

unfoldable pub get_interval : Std → HealthCheckConfig → ℤ
get_interval std h =
    if h.interval == ""
    then pos (5 * second)
    else duration_or (5 * second) (std.parse_duration h.interval)

unfoldable pub get_timeout : Std → HealthCheckConfig → ℤ
get_timeout std h =
    if h.timeout == ""
    then pos (3 * second)
    else duration_or (3 * second) (std.parse_duration h.timeout)

unfoldable pub get_type : HealthCheckConfig → String
get_type h = default_text "tcp" h.kind

unfoldable pub get_http_path : HealthCheckConfig → String
get_http_path h = default_text "/" h.http_path

unfoldable pub get_http_expected_status : HealthCheckConfig → ℤ
get_http_expected_status h = default_positive 200 h.http_expected_status

unfoldable pub get_fail_count : HealthCheckConfig → ℤ
get_fail_count h = default_positive 3 h.fail_count

unfoldable pub get_rise_count : HealthCheckConfig → ℤ
get_rise_count h = default_positive 2 h.rise_count
