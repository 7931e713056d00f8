-- ===== src/Std.antt =====
-- What the modelled code calls of Go's standard library (net, strconv, time), as a parameter: the
-- theorems hold whatever these functions return. `none` stands for a non-nil error, or a nil IP.
pub mod Sample
use ezlb.Shared.{String, Option}
use ezlb.Shared.Int.{ℤ}

pub record Std : Type 1 where
  -- net.IP
  pub IP : Type 0
  -- net.SplitHostPort
  pub split_host_port : String → Option (String × String)
  -- net.ParseIP, (net.IP).To4 and (net.IP).String
  pub parse_ip : String → Option IP
  pub to4 : IP → Option IP
  pub ip_string : IP → String
  -- strconv.Atoi
  pub atoi : String → Option ℤ
  -- time.ParseDuration, in nanoseconds
  pub parse_duration : String → Option ℤ
