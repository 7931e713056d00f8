-- ===== src/Trafficlog/Tests.antt =====
-- Connection counts of two services, one of them with two backends.
use ezlb.Shared.{◌≡◌, refl, ◌+◌, ◌<◌, arith, String, ℕ, [], ◌∷◌}
use ezlb.Shared.Eq.{string_eq, nat_eq}
use ezlb.Shared.GoMap.{GoMap, lookup}
use Prim.Native.Nat.{◌%◌}
use ezlb.Shared.Tests.{is_some}
use ezlb.Std.Sample.{in_order}
use ezlb.Trafficlog.{
  BackendTrafficStats, u64_mod, counts_or_zero, aggregate_service_connection_counts,
  backend_stats_of,
}
use ezlb.Shared.Int.{pos}
use ezlb.Lvs.Types.{Destination, no_stats}
use ezlb.Trafficlog.Bounds.{backend_stats_of-current_connections}
use ezlb.Trafficlog.Totals.{
  total, current_of, has_backend, aggregate_service_connection_counts-total,
}

abbrev stats : String → ℕ → ℕ → BackendTrafficStats
stats key active inactive = record {
  service_key = key;
  connections = 10;
  active_connections = active;
  inactive_connections = inactive;
  current_connections = 0;
  in_pkts = 0;
  out_pkts = 0;
  in_bytes = 0;
  out_bytes = 0;
}

abbrev backends : GoMap String BackendTrafficStats
backends = ("a->1", stats "a" 3 4) ∷ ("b->1", stats "b" 1 1) ∷ ("a->2", stats "a" 5 6) ∷ []

aggregate_service_connection_counts-total_example :
    let counts =
      counts_or_zero
        (lookup "a" (aggregate_service_connection_counts (in_order.arrange backends) [])) in
    (is_some (lookup "a" (aggregate_service_connection_counts (in_order.arrange backends) []))
      ≡ has_backend "a" backends)
    × (counts.active ≡ total (λ s. s.active_connections) "a" backends % u64_mod)
    × (counts.inactive ≡ total (λ s. s.inactive_connections) "a" backends % u64_mod)
    × (counts.current ≡ total current_of "a" backends % u64_mod)
aggregate_service_connection_counts-total_example =
    aggregate_service_connection_counts-total in_order backends "a"

total_a : total current_of "a" backends ≡ 18
total_a = refl

abbrev backend : Destination String
backend = record {
  address = "10.0.1.1";
  stats = no_stats;
  weight = pos 1;
  active_connections = pos 3;
  inactive_connections = pos 4;
  connection_flags = 0;
  upper_threshold = 0;
  lower_threshold = 0;
  port = 8080;
  address_family = 2;
}

backend_stats_of-current_connections_example :
    let s = backend_stats_of "10.0.0.1:80/tcp" backend in
    (s.active_connections ≡ 3)
    × (s.inactive_connections ≡ 4)
    × (s.current_connections ≡ 3 + 4)
    × (s.current_connections < u64_mod)
backend_stats_of-current_connections_example =
    backend_stats_of-current_connections "10.0.0.1:80/tcp" backend 3 4 refl refl (omega arith)
      (omega arith)
