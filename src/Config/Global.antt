-- ===== src/Config/Global.antt =====
-- The getters of GlobalConfig (pkg/config/config.go), which supply defaults.
use ezlb.Shared.{String, Bool}
use ezlb.Config.{GlobalConfig, default_text, default_true}

unfoldable pub is_cleanup_on_exit : GlobalConfig → Bool
is_cleanup_on_exit g = default_true g.cleanup_on_exit

unfoldable pub is_metrics_enabled : GlobalConfig → Bool
is_metrics_enabled g = default_true g.metrics_enabled

unfoldable pub get_metrics_path : GlobalConfig → String
get_metrics_path g = default_text "/metrics" g.metrics_path
