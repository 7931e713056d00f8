-- ===== src/Config.antt =====
-- pkg/config/config.go: the configuration's types and the defaults of its getters.
pub mod Log
pub mod TrafficLog
pub mod Global
pub mod HealthCheck
pub mod Manager
pub mod Validate
pub mod Sample
use ezlb.Shared.{ℕ, String, Bool, true, Option, none, some, List}
use ezlb.Shared.Tests.{if◌then◌else◌}
use ezlb.Shared.Eq.{◌==◌, string_eq}
use ezlb.Shared.Int.{ℤ, pos, is_nonpositive}

-- A Go `*bool` that a document may leave out.
abbrev pub OptionalBool : Type 0
OptionalBool = Option Bool

abbrev pub second : ℕ
second = 1000000000

pub record TrafficLogConfig : Type 0 where
  pub enabled : OptionalBool
  pub interval : String

pub record LogConfig : Type 0 where
  pub traffic : TrafficLogConfig
  pub level : String
  pub home : String
  pub max_size : ℤ
  pub max_backups : ℤ
  pub max_age : ℤ
  pub compress : Bool

pub record GlobalConfig : Type 0 where
  pub cleanup_on_exit : OptionalBool
  pub metrics_enabled : OptionalBool
  pub admin_address : String
  pub metrics_path : String
  pub log : LogConfig

pub record HealthCheckConfig : Type 0 where
  pub enabled : OptionalBool
  pub kind : String
  pub interval : String
  pub timeout : String
  pub http_path : String
  pub fail_count : ℤ
  pub rise_count : ℤ
  pub http_expected_status : ℤ

pub record BackendConfig : Type 0 where
  pub address : String
  pub weight : ℤ

pub record ServiceConfig : Type 0 where
  pub traffic_log : OptionalBool
  pub name : String
  pub listen : String
  pub protocol : String
  pub scheduler : String
  pub snat_ip : String
  pub backends : List BackendConfig
  pub health_check : HealthCheckConfig
  pub full_nat : Bool

pub record Config : Type 0 where
  pub services : List ServiceConfig
  pub global : GlobalConfig

-- The getters' pattern for a `*bool` field whose absence means true.
abbrev pub default_true : OptionalBool → Bool
default_true none = true
default_true (some b) = b

abbrev pub default_text : String → String → String
default_text default text = if text == "" then default else text

abbrev pub default_positive : ℕ → ℤ → ℤ
default_positive default n = if is_nonpositive n then pos default else n

abbrev pub duration_or : ℕ → Option ℤ → ℤ
duration_or default none = pos default
duration_or default (some d) = d
