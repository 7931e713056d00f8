-- ===== src/Config/Log.antt =====
-- The getters of LogConfig (pkg/config/config.go), which supply defaults.
use ezlb.Shared.{String}
use ezlb.Shared.Int.{ℤ}
use ezlb.Config.{LogConfig, default_text, default_positive}

unfoldable pub get_level : LogConfig → String
get_level l = default_text "info" l.level

unfoldable pub get_home : LogConfig → String
get_home l = default_text "./logs" l.home

unfoldable pub get_max_size : LogConfig → ℤ
get_max_size l = default_positive 50 l.max_size

unfoldable pub get_max_backups : LogConfig → ℤ
get_max_backups l = default_positive 3 l.max_backups

unfoldable pub get_max_age : LogConfig → ℤ
get_max_age l = l.max_age
