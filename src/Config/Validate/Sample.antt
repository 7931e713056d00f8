-- ===== src/Config/Validate/Sample.antt =====
-- A configuration for tests that Validate accepts; its service leaves the protocol out.
use ezlb.Shared.{◌≡◌, refl, false, none, [], ◌∷◌}
use ezlb.Shared.Eq.{string_eq}
use ezlb.Shared.GoMap.{lookup, insert}
use ezlb.Shared.Int.{pos}
use ezlb.Shared.Result.{ok}
use ezlb.Std.Sample.{sample_std}
use ezlb.Config.{Config, GlobalConfig, ServiceConfig}
use ezlb.Config.Sample.{web}
use ezlb.Config.Validate.{validate}

abbrev pub global : GlobalConfig
global = record {
  cleanup_on_exit = none;
  metrics_enabled = none;
  admin_address = "";
  metrics_path = "";
  log = record {
    traffic = record { enabled = none; interval = "10s" };
    level = "";
    home = "";
    max_size = pos 0;
    max_backups = pos 0;
    max_age = pos 0;
    compress = false;
  };
}

abbrev pub written : Config
written = record { services = record web { protocol = "" } ∷ []; global = global }

abbrev pub accepted : Config
accepted = record { services = web ∷ []; global = global }

pub accepted_lem : validate sample_std written ≡ ok accepted
unfolding validate ezlb.Config.Validate.validate_services ezlb.Config.Validate.validate_service
    ezlb.Config.Validate.validate_backends ezlb.Config.Validate.validate_traffic
    ezlb.Config.Validate.validate_address ezlb.Config.Validate.validate_health_check
    ezlb.Config.Validate.validate_http ezlb.Config.Validate.validate_snat lookup insert
    ezlb.Config.Log.get_level ezlb.Config.HealthCheck.get_type ezlb.Config.HealthCheck.is_enabled
accepted_lem = refl
