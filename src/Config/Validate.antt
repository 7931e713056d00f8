-- ===== src/Config/Validate.antt =====
-- Validate (pkg/config/config.go). It stops at the first error; where there is none it returns the
-- configuration with the protocols that it has filled in. Load drops a configuration with an error.
-- The sets are maps that hold `true` alone.
pub mod Sound
pub mod Sample
mod Tests
use Prim.Native.Nat.{suc}
use Prim.Native.String.{◌++◌}
use text.Mathlib.Text.{starts_with}
use ezlb.Shared.{ℕ, ◌*◌, String, Bool, true, false, not, ◌||◌, List, [], ◌∷◌}
use ezlb.Shared.Eq.{◌==◌, string_eq}
use ezlb.Shared.GoMap.{GoMap, lookup, insert}
use ezlb.Shared.Int.{ℤ, pos, int_eq, is_nonpositive, is_below, is_above}
use ezlb.Shared.Result.{Result, ok, err, ◌>>=◌, ◌>>◌, or_fail}
use ezlb.Shared.Tests.{if◌then◌else◌, is_some}
use ezlb.Std.{Std}
use ezlb.Config.{Config, ServiceConfig, BackendConfig, HealthCheckConfig, TrafficLogConfig, second}
use ezlb.Config.HealthCheck.{is_enabled, get_type}
use ezlb.Config.Log.{get_level}

pub data ConfigError : Type 0 where
  unsupported_level invalid_traffic_interval : String → ConfigError
  traffic_interval_too_short : ℤ → ConfigError
  no_services : ConfigError
  name_required : ℕ → ConfigError
  duplicate_name : ℕ → String → ConfigError
  invalid_listen invalid_listen_ip unsupported_protocol unsupported_scheduler :
      String → String → ConfigError
  invalid_check_interval invalid_check_timeout unsupported_check_type invalid_snat_ip :
      String → String → ConfigError
  listen_port_required http_path_without_slash http_status_out_of_range snat_requires_full_nat :
      String → ConfigError
  backend_required : String → ConfigError
  duplicate_listen : String → String → String → ConfigError
  backend_address_required backend_port_required weight_not_positive : String → ℕ → ConfigError
  invalid_backend_address invalid_backend_ip duplicate_backend : String → ℕ → String → ConfigError

-- if !b { return e }
abbrev pub require : Bool → ConfigError → Result ConfigError (Unit {0})
require true e = ok tt
require false e = err e

abbrev pub is_valid_level : String → Bool
is_valid_level level = level == "debug" || level == "info" || level == "warn" || level == "error"

abbrev pub is_valid_protocol : String → Bool
is_valid_protocol protocol = protocol == "tcp" || protocol == "udp"

abbrev pub is_valid_scheduler : String → Bool
is_valid_scheduler s = s == "rr" || s == "wrr" || s == "lc" || s == "wlc" || s == "dh" || s == "sh"

-- port == "" || port == "0"
abbrev pub is_no_port : String → Bool
is_no_port port = port == "" || port == "0"

abbrev pub protocol_of : ServiceConfig → String
protocol_of svc = if svc.protocol == "" then "tcp" else svc.protocol

module _ (std : Std) where
  open std use {split_host_port, parse_ip, parse_duration}

  unfoldable pub validate_traffic : TrafficLogConfig → Result ConfigError (Unit {0})
  validate_traffic t = if t.interval == "" then ok tt else do
    interval ← or_fail (parse_duration t.interval) (invalid_traffic_interval t.interval)
    require (not (is_below interval (5 * second))) (traffic_interval_too_short interval)

  -- An address with an IP and a port, for a listen address and for a backend.
  unfoldable pub validate_address :
      String → ConfigError → (String → ConfigError) → ConfigError → Result ConfigError (Unit {0})
  validate_address address invalid invalid_ip port_required = do
    (host, port) ← or_fail (split_host_port address) invalid
    require (is_some (parse_ip host)) (invalid_ip host)
    require (not (is_no_port port)) port_required

  -- if text != "" { if _, err := time.ParseDuration(text); err != nil { return e } }
  abbrev pub validate_duration : String → ConfigError → Result ConfigError (Unit {0})
  validate_duration text e = require (text == "" || is_some (parse_duration text)) e

  unfoldable pub validate_http : String → HealthCheckConfig → Result ConfigError (Unit {0})
  validate_http name h = if not (get_type h == "http") then ok tt else do
    require (h.http_path == "" || starts_with h.http_path "/") (http_path_without_slash name)
    require
        (h.http_expected_status == pos 0
          || not (is_below h.http_expected_status 100 || is_above h.http_expected_status 599))
        (http_status_out_of_range name)

  unfoldable pub validate_health_check : String → HealthCheckConfig → Result ConfigError (Unit {0})
  validate_health_check name h = if not (is_enabled h) then ok tt else do
    validate_duration h.interval (invalid_check_interval name h.interval)
    validate_duration h.timeout (invalid_check_timeout name h.timeout)
    require (get_type h == "tcp" || get_type h == "http") (unsupported_check_type name (get_type h))
    validate_http name h

  unfoldable pub validate_snat : ServiceConfig → Result ConfigError (Unit {0})
  validate_snat svc = if svc.snat_ip == "" then ok tt else do
    require svc.full_nat (snat_requires_full_nat svc.name)
    require (is_some (parse_ip svc.snat_ip)) (invalid_snat_ip svc.name svc.snat_ip)

  -- The loop over the backends: `j` is the index, `seen` is backendSet.
  unfoldable pub validate_backends :
      String → ℕ → GoMap String Bool → List BackendConfig → Result ConfigError (Unit {0})
  validate_backends name j seen [] = ok tt
  validate_backends name j seen (backend ∷ backends) = do
    require (not (backend.address == "")) (backend_address_required name j)
    validate_address backend.address (invalid_backend_address name j backend.address)
        (invalid_backend_ip name j) (backend_port_required name j)
    require (not (is_some (lookup backend.address seen))) (duplicate_backend name j backend.address)
    require (not (is_nonpositive backend.weight)) (weight_not_positive name j)
    validate_backends name (suc j) (insert backend.address true seen) backends

  abbrev pub has_backends : List BackendConfig → Bool
  has_backends [] = false
  has_backends (b ∷ bs) = true

  abbrev pub listen_key : ServiceConfig → String
  listen_key svc = svc.listen ++ "/" ++ protocol_of svc

  -- The body of the loop over the services.
  unfoldable pub validate_service :
      ℕ → GoMap String Bool → GoMap String Bool → ServiceConfig → Result ConfigError (Unit {0})
  validate_service i names listens svc = do
    require (not (svc.name == "")) (name_required i)
    require (not (is_some (lookup svc.name names))) (duplicate_name i svc.name)
    validate_address svc.listen (invalid_listen svc.name svc.listen) (invalid_listen_ip svc.name)
        (listen_port_required svc.name)
    require (is_valid_protocol (protocol_of svc)) (unsupported_protocol svc.name (protocol_of svc))
    require (not (is_some (lookup (listen_key svc) listens)))
        (duplicate_listen svc.name svc.listen (protocol_of svc))
    require (is_valid_scheduler svc.scheduler) (unsupported_scheduler svc.name svc.scheduler)
    validate_health_check svc.name svc.health_check
    validate_snat svc
    require (has_backends svc.backends) (backend_required svc.name)
    validate_backends svc.name 0 [] svc.backends

  unfoldable pub validate_services :
      ℕ
      → GoMap String Bool
      → GoMap String Bool
      → List ServiceConfig
      → Result ConfigError (List ServiceConfig)
  validate_services i names listens [] = ok []
  validate_services i names listens (svc ∷ services) = do
    validate_service i names listens svc
    rest ←
        validate_services (suc i) (insert svc.name true names)
          (insert (listen_key svc) true listens) services
    ok (record svc { protocol = protocol_of svc } ∷ rest)

  abbrev pub has_services : List ServiceConfig → Bool
  has_services [] = false
  has_services (s ∷ ss) = true

  unfoldable pub validate : Config → Result ConfigError Config
  validate cfg = do
    require (is_valid_level (get_level cfg.global.log))
        (unsupported_level (get_level cfg.global.log))
    validate_traffic cfg.global.log.traffic
    require (has_services cfg.services) no_services
    services ← validate_services 0 [] [] cfg.services
    ok (record cfg { services = services })
