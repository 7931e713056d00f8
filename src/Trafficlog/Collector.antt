-- ===== src/Trafficlog/Collector.antt =====
-- The Collector of pkg/trafficlog/collector.go, with the log fields of pkg/logutil/fields.go. Its
-- goroutine runs until Stop; a turn of the loop in `run` is `tick`. `split` is
-- strings.Split. The entries that the collector logs are the lists of their fields, in order.
pub mod Registry
pub mod Metered
mod Tests
use ezlb.Shared.{ℕ, String, Bool, true, false, Option, none, some, List, [], ◌∷◌, ◌++◌}
use ezlb.Shared.Eq.{◌==◌, nat_eq, string_eq}
use ezlb.Shared.GoMap.{GoMap, lookup}
use ezlb.Shared.Int.{ℤ}
use ezlb.Shared.Order.{RangeOrder}
use ezlb.Shared.Result.{Result, ok, err}
use ezlb.Shared.Tests.{if◌then◌else◌}
use ezlb.Std.{Std}
use ezlb.Config.{ServiceConfig, BackendConfig, TrafficLogConfig}
use ezlb.Config.TrafficLog.{is_enabled, get_interval}
use ezlb.Lvs.Handle.{IpvsHandle}
use ezlb.Metrics.{Prometheus, set_service_traffic, set_backend_traffic, set_backend_connections}
use ezlb.Trafficlog.{
  ServiceTrafficStats, BackendTrafficStats, ServiceConnectionCounts, service_stats, backend_stats,
  aggregate_service_connection_counts, build_service_config_map, is_traffic_log_enabled,
  backend_current_connections,
}

pub record Collector : Type 0 where
  pub services : List ServiceConfig
  pub traffic_cfg : TrafficLogConfig
  pub stopped : Bool

-- NewCollector
unfoldable pub new_collector : List ServiceConfig → TrafficLogConfig → Collector
new_collector services traffic_cfg = record {
  services = services;
  traffic_cfg = traffic_cfg;
  stopped = false;
}

-- UpdateConfig
unfoldable pub update_config : List ServiceConfig → TrafficLogConfig → Collector → Collector
update_config services traffic_cfg c = record c { services = services; traffic_cfg = traffic_cfg }

-- Stop, which returns once the collector's goroutine has ended
unfoldable pub stop_collector : Collector → Collector
stop_collector c = record c { stopped = true }

-- A tick with the ticker's interval: the interval from now on, and whether `collect` runs.
unfoldable pub tick : Std → Collector → ℤ → ℤ × Bool
tick std c interval = (get_interval std c.traffic_cfg, is_enabled c.traffic_cfg)

pub record TrafficSnapshot : Type 0 where
  pub services : GoMap String ServiceTrafficStats
  pub backends : GoMap String BackendTrafficStats

-- The value, or the empty map after an error.
abbrev pub map_or_empty : {E A : Type 0} → Result E (GoMap String A) → GoMap String A
map_or_empty (ok m) = m
map_or_empty (err e) = []

unfoldable pub gather_snapshot :
    (std : Std) {E S : Type 0} → IpvsHandle std.IP E S → S → TrafficSnapshot
gather_snapshot std handle s = record {
  services = map_or_empty (service_stats std handle s);
  backends = map_or_empty (backend_stats std handle s);
}

-- A zap.Field
pub data LogField : Type 0 where
  text : String → String → LogField
  number : String → ℕ → LogField
  switch : String → Bool → LogField

-- logutil.ServiceFields and BackendFields
unfoldable pub service_fields : ServiceConfig → List LogField
service_fields svc =
    (text "service" svc.name
      ∷ text "listen" svc.listen
      ∷ text "protocol" svc.protocol
      ∷ text "scheduler" svc.scheduler
      ∷ [])
    ++ (if svc.full_nat
        then (switch "full_nat" svc.full_nat
            ∷ (if svc.snat_ip == "" then [] else text "snat_ip" svc.snat_ip ∷ []))
        else [])

unfoldable pub backend_fields : ServiceConfig → BackendConfig → List LogField
backend_fields svc backend = service_fields svc ++ (text "backend" backend.address ∷ [])

abbrev pub count_fields : Option ServiceConnectionCounts → List LogField
count_fields none = []
count_fields (some counts) =
    number "active_connections" counts.active
    ∷ number "inactive_connections" counts.inactive
    ∷ number "current_connections" counts.current
    ∷ []

unfoldable pub service_entry :
    ServiceConfig → ServiceTrafficStats → Option ServiceConnectionCounts → List LogField
service_entry svc stats counts =
    service_fields svc
    ++ (text "source" "ipvs"
        ∷ text "type" "service"
        ∷ number "connections" stats.connections
        ∷ number "bytes_in" stats.in_bytes
        ∷ number "bytes_out" stats.out_bytes
        ∷ number "packets_in" stats.in_pkts
        ∷ number "packets_out" stats.out_pkts
        ∷ count_fields counts)

unfoldable pub backend_entry : ServiceConfig → String → BackendTrafficStats → List LogField
backend_entry svc key stats =
    service_fields svc
    ++ (text "source" "ipvs"
        ∷ text "type" "backend"
        ∷ text "backend_key" key
        ∷ number "connections" stats.connections
        ∷ number "bytes_in" stats.in_bytes
        ∷ number "bytes_out" stats.out_bytes
        ∷ number "packets_in" stats.in_pkts
        ∷ number "packets_out" stats.out_pkts
        ∷ number "active_connections" stats.active_connections
        ∷ number "inactive_connections" stats.inactive_connections
        ∷ number "current_connections" (backend_current_connections stats)
        ∷ [])

-- The entry of a service that is configured and has traffic_log set, before those of `rest`.
abbrev pub entry_if_logged :
    Option ServiceConfig
    → (ServiceConfig → List LogField)
    → List (List LogField)
    → List (List LogField)
entry_if_logged none entry rest = rest
entry_if_logged (some svc) entry rest =
    if is_traffic_log_enabled svc.traffic_log then entry svc ∷ rest else rest

unfoldable pub log_services :
    GoMap String ServiceConfig
    → GoMap String ServiceConnectionCounts
    → GoMap String ServiceTrafficStats
    → List (List LogField)
log_services cfgs counts [] = []
log_services cfgs counts ((key, stats) ∷ services) =
    entry_if_logged (lookup key cfgs) (λ svc. service_entry svc stats (lookup key counts))
      (log_services cfgs counts services)

unfoldable pub log_backends :
    GoMap String ServiceConfig → GoMap String BackendTrafficStats → List (List LogField)
log_backends cfgs [] = []
log_backends cfgs ((key, stats) ∷ backends) =
    entry_if_logged (lookup stats.service_key cfgs) (λ svc. backend_entry svc key stats)
      (log_backends cfgs backends)

-- parts[1] of exactly two parts, and else the whole key
abbrev pub second_of_two : List String → String → String
second_of_two (service ∷ backend ∷ []) full_key = backend
second_of_two parts full_key = full_key

module _ (split : String → String → List String) where
  unfoldable pub extract_backend_address : String → String
  extract_backend_address full_key = second_of_two (split full_key "->") full_key

  module _ {R Fl : Type 0} (prom : Prometheus R Fl) where
    unfoldable pub update_service_metrics :
        GoMap String ServiceConfig → GoMap String ServiceTrafficStats → R → R
    update_service_metrics cfgs [] r = r
    update_service_metrics cfgs ((key, stats) ∷ services) r =
        update_service_metrics cfgs services (elim (lookup key cfgs) [
          | none ↦ r
          | some svc ↦
              set_service_traffic prom svc.name svc.listen svc.protocol stats.connections
                stats.in_bytes stats.out_bytes stats.in_pkts stats.out_pkts r
        ])

    unfoldable pub update_backend_metrics :
        GoMap String ServiceConfig → GoMap String BackendTrafficStats → R → R
    update_backend_metrics cfgs [] r = r
    update_backend_metrics cfgs ((key, stats) ∷ backends) r =
        let address = extract_backend_address key in
        update_backend_metrics cfgs backends (elim (lookup stats.service_key cfgs) [
          | none ↦ r
          | some svc ↦
              set_backend_connections prom svc.name address svc.protocol stats.active_connections
                stats.inactive_connections
                (set_backend_traffic prom svc.name address svc.protocol stats.connections
                  stats.in_bytes stats.out_bytes r)
        ])

    module _ (o : RangeOrder) where
      unfoldable pub update_metrics : Collector → TrafficSnapshot → R → R
      update_metrics c snapshot r =
          let cfgs = build_service_config_map c.services [] in
          update_backend_metrics cfgs (o.arrange snapshot.backends)
            (update_service_metrics cfgs (o.arrange snapshot.services) r)

      unfoldable pub log_raw_stats : Collector → TrafficSnapshot → List (List LogField)
      log_raw_stats c snapshot =
          let cfgs = build_service_config_map c.services [] in
          let counts = aggregate_service_connection_counts (o.arrange snapshot.backends) [] in
          log_services cfgs counts (o.arrange snapshot.services)
          ++ log_backends cfgs (o.arrange snapshot.backends)

      -- One cycle: the entries that it logs, and the metrics after it.
      unfoldable pub collect :
          (std : Std) {E S : Type 0}
          → IpvsHandle std.IP E S
          → S
          → Collector
          → R
          → List (List LogField) × R
      collect std handle s c r =
          let snapshot = gather_snapshot std handle s in
          (log_raw_stats c snapshot, update_metrics c snapshot r)
