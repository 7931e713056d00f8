-- ===== src/Trafficlog/Collector/Tests.antt =====
-- A collection of one configured service, over a registry that is the function of its values.
use Prim.Native.Nat.{◌+◌}
use ezlb.Shared.{false, ◌≡◌, refl, ℕ, String, ◌&&◌, List, [], ◌∷◌}
use ezlb.Shared.Eq.{◌==◌, string_eq, list_eq, pair_eq}
use ezlb.Shared.GoMap.{lookup, insert}
use ezlb.Shared.Tests.{if◌then◌else◌}
use ezlb.Std.Sample.{in_order}
use ezlb.Config.Sample.{web}
use ezlb.Config.Validate.Sample.{global}
use ezlb.Metrics.{Labels, Prometheus, service_bytes_in_total, metric_name}
use ezlb.Trafficlog.{ServiceTrafficStats, build_service_config_map}
use ezlb.Trafficlog.Collector.{Collector, TrafficSnapshot, update_metrics}
use ezlb.Trafficlog.Collector.Metered.{update_metrics-service_total}
use ezlb.Trafficlog.Collector.Registry.{IsRegistry, labels_of}

abbrev Values : Type 0
Values = String → Labels → ℕ

abbrev change : String → Labels → (ℕ → ℕ) → Values → Values
change name labels f r j l = if name == j && labels == l then f (r j l) else r j l

abbrev prom : Prometheus Values ℕ
prom = record {
  add = λ name labels x. change name labels (λ v. v + x);
  set = λ name labels x. change name labels (λ v. x);
  delete_labels = λ name labels. change name labels (λ v. 0);
  inc = λ name. change name [] (λ v. v + 1);
  float64 = λ n. n;
}

prom-IsRegistry : IsRegistry prom (λ j l r. r j l) (λ a b. a + b)
prom-IsRegistry = record {
  value-add = λ name j labels l x r. refl;
  value-set = λ name j labels l x r. refl;
}

abbrev stats : ServiceTrafficStats
stats = record { connections = 2; in_pkts = 30; out_pkts = 40; in_bytes = 5000; out_bytes = 6000 }

abbrev snapshot : TrafficSnapshot
snapshot = record { services = ("10.0.0.1:80/tcp", stats) ∷ []; backends = [] }

abbrev collector : Collector
collector = record { services = web ∷ []; traffic_cfg = global.log.traffic; stopped = false }

abbrev no_split : String → String → List String
no_split s sep = s ∷ []

-- The registry already has the total, from the collection before.
abbrev once : Values
once j l = 5000

update_metrics-service_total_example :
    update_metrics no_split prom in_order collector snapshot once
      (metric_name service_bytes_in_total)
      (labels_of web)
    ≡ 5000 + 5000
unfolding lookup build_service_config_map insert
update_metrics-service_total_example =
    update_metrics-service_total prom (λ j l r. r j l) (λ a b. a + b) prom-IsRegistry
      service_bytes_in_total (λ s. s.in_bytes) (λ s. refl) no_split in_order collector snapshot
      "10.0.0.1:80/tcp" stats web once (refl, tt) refl refl
