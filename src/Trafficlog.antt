-- ===== src/Trafficlog.antt =====
-- pkg/trafficlog: the statistics read through lvs.Manager (lvs_stats_adapter.go, models.go), and the
-- counts and lookups of the collector (collector.go). Counters are uint64 and wrap around.
pub mod Bounds
pub mod Collector
pub mod Totals
mod Tests
use Prim.Native.Nat.{◌+◌, ◌%◌}
use Prim.Native.String.{◌++◌}
use ezlb.Shared.{ℕ, String, Bool, false, true, Option, none, some, List, [], ◌∷◌}
use ezlb.Shared.Decimal.{itoa}
use ezlb.Shared.Eq.{◌==◌, nat_eq, string_eq}
use ezlb.Shared.GoMap.{GoMap, lookup, insert}
use ezlb.Shared.Int.{ℤ, pos, negsuc}
use ezlb.Shared.Result.{Result, ok, err, ◌>>=◌}
use ezlb.Shared.Tests.{if◌then◌else◌}
use ezlb.Std.{Std}
use ezlb.Config.{ServiceConfig, OptionalBool}
use ezlb.Lvs.Handle.{IpvsHandle}
use ezlb.Lvs.Manager
use ezlb.Lvs.Manager.{ManagerError}
use ezlb.Lvs.Types.{
  ServiceKey, DestinationKey, Service, Destination, ipproto_tcp, ipproto_udp, service_key_from_ipvs,
  destination_key_from_ipvs,
}

abbrev pub u64_mod : ℕ
u64_mod = 18446744073709551616

abbrev pub add_uint64 : ℕ → ℕ → ℕ
add_uint64 a b = (a + b) % u64_mod

pub record ServiceTrafficStats : Type 0 where
  pub connections : ℕ
  pub in_pkts : ℕ
  pub out_pkts : ℕ
  pub in_bytes : ℕ
  pub out_bytes : ℕ

pub record BackendTrafficStats : Type 0 where
  pub service_key : String
  pub connections : ℕ
  pub active_connections : ℕ
  pub inactive_connections : ℕ
  pub current_connections : ℕ
  pub in_pkts : ℕ
  pub out_pkts : ℕ
  pub in_bytes : ℕ
  pub out_bytes : ℕ

pub record ServiceConnectionCounts : Type 0 where
  pub active : ℕ
  pub inactive : ℕ
  pub current : ℕ

-- protocolToString, and the String methods of the two keys (pkg/lvs/types.go)
unfoldable pub protocol_to_string : ℕ → String
unfolding itoa
protocol_to_string protocol =
    if protocol == ipproto_tcp
    then "tcp"
    else if protocol == ipproto_udp
    then "udp"
    else "unknown(" ++ itoa protocol ++ ")"

unfoldable pub service_key_string : ServiceKey → String
unfolding protocol_to_string
service_key_string k = k.address ++ ":" ++ itoa k.port ++ "/" ++ protocol_to_string k.protocol

unfoldable pub destination_key_string : DestinationKey → String
unfolding itoa
destination_key_string k = k.address ++ ":" ++ itoa k.port

unfoldable pub connection_count_uint64 : ℤ → ℕ
connection_count_uint64 (pos n) = n % u64_mod
connection_count_uint64 (negsuc n) = 0

module _ {IP : Type 0} where
  unfoldable pub service_stats_of : Service IP → ServiceTrafficStats
  service_stats_of svc = record {
    connections = svc.stats.connections;
    in_pkts = svc.stats.packets_in;
    out_pkts = svc.stats.packets_out;
    in_bytes = svc.stats.bytes_in;
    out_bytes = svc.stats.bytes_out;
  }

  unfoldable pub backend_stats_of : String → Destination IP → BackendTrafficStats
  unfolding connection_count_uint64
  backend_stats_of svc_key dst =
      let active = connection_count_uint64 dst.active_connections in
      let inactive = connection_count_uint64 dst.inactive_connections in
      record {
        service_key = svc_key;
        connections = dst.stats.connections;
        active_connections = active;
        inactive_connections = inactive;
        current_connections = add_uint64 active inactive;
        in_pkts = dst.stats.packets_in;
        out_pkts = dst.stats.packets_out;
        in_bytes = dst.stats.bytes_in;
        out_bytes = dst.stats.bytes_out;
      }

module _ (std : Std) {E S : Type 0} (handle : IpvsHandle std.IP E S) where
  -- The loop of ServiceStats.
  unfoldable pub add_services :
      List (Service std.IP) → GoMap String ServiceTrafficStats → GoMap String ServiceTrafficStats
  add_services [] result = result
  add_services (svc ∷ services) result =
      add_services services
        (insert (service_key_string (service_key_from_ipvs std svc)) (service_stats_of svc) result)

  unfoldable pub service_stats :
      S → Result (ManagerError std.IP E) (GoMap String ServiceTrafficStats)
  service_stats s = do services ← Manager.get_services handle s; ok (add_services services [])

  -- The inner loop of BackendStats.
  unfoldable pub add_destinations :
      String
      → List (Destination std.IP)
      → GoMap String BackendTrafficStats
      → GoMap String BackendTrafficStats
  add_destinations svc_key [] result = result
  add_destinations svc_key (dst ∷ dests) result =
      let dst_key = destination_key_string (destination_key_from_ipvs std dst) in
      add_destinations svc_key dests
        (insert (svc_key ++ "->" ++ dst_key) (backend_stats_of svc_key dst) result)

  unfoldable pub add_backends :
      S
      → List (Service std.IP)
      → GoMap String BackendTrafficStats
      → Result (ManagerError std.IP E) (GoMap String BackendTrafficStats)
  add_backends s [] result = ok result
  add_backends s (svc ∷ services) result = do
    dests ← Manager.get_destinations handle svc s
    add_backends s services
        (add_destinations (service_key_string (service_key_from_ipvs std svc)) dests result)

  unfoldable pub backend_stats :
      S → Result (ManagerError std.IP E) (GoMap String BackendTrafficStats)
  backend_stats s = do services ← Manager.get_services handle s; add_backends s services []

unfoldable pub backend_current_connections : BackendTrafficStats → ℕ
backend_current_connections stats =
    if stats.current_connections == 0
    then add_uint64 stats.active_connections stats.inactive_connections
    else stats.current_connections

-- result[key], zero where there is no entry
abbrev pub counts_or_zero : Option ServiceConnectionCounts → ServiceConnectionCounts
counts_or_zero none = record { active = 0; inactive = 0; current = 0 }
counts_or_zero (some counts) = counts

unfoldable pub add_counts : BackendTrafficStats → ServiceConnectionCounts → ServiceConnectionCounts
unfolding backend_current_connections
add_counts stats counts = record {
  active = add_uint64 counts.active stats.active_connections;
  inactive = add_uint64 counts.inactive stats.inactive_connections;
  current = add_uint64 counts.current (backend_current_connections stats);
}

-- aggregateServiceConnectionCounts, over the entries in the order of `range`
unfoldable pub aggregate_service_connection_counts :
    GoMap String BackendTrafficStats
    → GoMap String ServiceConnectionCounts
    → GoMap String ServiceConnectionCounts
aggregate_service_connection_counts [] result = result
aggregate_service_connection_counts ((key, stats) ∷ backends) result =
    aggregate_service_connection_counts backends (
      insert stats.service_key (add_counts stats (counts_or_zero (lookup stats.service_key result)))
        result)

unfoldable pub build_service_config_map :
    List ServiceConfig → GoMap String ServiceConfig → GoMap String ServiceConfig
build_service_config_map [] result = result
build_service_config_map (svc ∷ services) result =
    build_service_config_map services (insert (svc.listen ++ "/" ++ svc.protocol) svc result)

unfoldable pub is_traffic_log_enabled : OptionalBool → Bool
is_traffic_log_enabled none = false
is_traffic_log_enabled (some b) = b
