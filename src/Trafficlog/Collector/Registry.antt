-- ===== src/Trafficlog/Collector/Registry.antt =====
-- How the counters of a service change with the calls that a collection makes.
use Prim.Native.String.{◌++◌ as append}
use ezlb.Shared.{◌≡◌, refl, ◌∙◌, ap, ℕ, String, Bool, false, ◌&&◌, Option, none, some, [], ◌∷◌}
use ezlb.Shared.Eq.{◌==◌, string_eq, list_eq, pair_eq}
use ezlb.Shared.Tests.{if◌then◌else◌}
use ezlb.Config.{ServiceConfig}
use ezlb.Metrics.{
  Metric, service_connections_total, service_bytes_in_total, service_bytes_out_total,
  service_packets_in_total, service_packets_out_total, backend_connections_total,
  backend_bytes_in_total, backend_bytes_out_total, backend_active_connections,
  backend_inactive_connections, metric_name, Labels, Prometheus, service_labels,
  set_service_traffic,
}
use ezlb.Trafficlog.{ServiceTrafficStats}

-- What the Prometheus client documents of Add and Set, where `value` reads a metric.
pub record IsRegistry {R Fl : Type 0} (prom : Prometheus R Fl) (value : String → Labels → R → Fl)
    (plus : Fl → Fl → Fl) : Type 0 where
  pub value-add :
      (name j : String) (labels l : Labels) (x : Fl) (r : R)
      → value j l (prom.add name labels x r)
        ≡ (if name == j && labels == l then plus (value j l r) x else value j l r)
  pub value-set :
      (name j : String) (labels l : Labels) (x : Fl) (r : R)
      → value j l (prom.set name labels x r) ≡ (if name == j && labels == l then x else value j l r)

-- The total that each counter of a service exports.
abbrev pub service_total : ServiceTrafficStats → Metric → Option ℕ
service_total stats service_connections_total = some stats.connections
service_total stats service_bytes_in_total = some stats.in_bytes
service_total stats service_bytes_out_total = some stats.out_bytes
service_total stats service_packets_in_total = some stats.in_pkts
service_total stats service_packets_out_total = some stats.out_pkts
service_total stats metric = none

abbrev pub labels_of : ServiceConfig → Labels
labels_of svc = service_labels svc.name svc.listen svc.protocol

-- The key under which buildServiceConfigMap keeps a service.
abbrev pub config_key : ServiceConfig → String
config_key svc = append svc.listen (append "/" svc.protocol)

-- That key, from the labels.
abbrev pub key_of_labels : Labels → String
key_of_labels (service ∷ (l, listen) ∷ (p, protocol) ∷ []) = append listen (append "/" protocol)
key_of_labels labels = ""

pub some-injective : {A : Type 0} {a b : A} → ◌≡◌ {A = Option A} (some a) (some b) → a ≡ b
some-injective p = cc

module _ {R Fl : Type 0} (prom : Prometheus R Fl) (value : String → Labels → R → Fl)
    (plus : Fl → Fl → Fl) (registry : IsRegistry prom value plus) where
  abbrev pub plus_if : Bool → Fl → Fl → Fl
  plus_if b x v = if b then plus v x else v

  -- Five counters with different names are added to: the one called `j` has its own value added.
  value-adds :
      (j a b c d e : String) (labels l : Labels) (va vb vc vd ve : Fl) (r : R)
      → let s = labels == l in
        value j l (
          prom.add e labels ve (
            prom.add d labels vd
              (prom.add c labels vc (prom.add b labels vb (prom.add a labels va r)))))
        ≡ plus_if (e == j && s) ve (
            plus_if (d == j && s) vd (
              plus_if
                (c == j && s)
                vc
                (plus_if (b == j && s) vb (plus_if (a == j && s) va (value j l r)))))
  value-adds j a b c d e labels l va vb vc vd ve r =
      let s = labels == l in
      let r1 = prom.add a labels va r in
      let r2 = prom.add b labels vb r1 in
      let r3 = prom.add c labels vc r2 in
      let r4 = prom.add d labels vd r3 in
      registry.value-add e j labels l ve r4
      ∙ ap (plus_if (e == j && s) ve) (
          registry.value-add d j labels l vd r3
          ∙ ap (plus_if (d == j && s) vd) (
              registry.value-add c j labels l vc r2
              ∙ ap (plus_if (c == j && s) vc) (
                  registry.value-add b j labels l vb r1
                  ∙ ap (plus_if (b == j && s) vb) (registry.value-add a j labels l va r))))

  -- Of the five only the metric's own name agrees.
  the_own :
      (stats : ServiceTrafficStats) (m : Metric) (n : ℕ) (s : Bool) (v : Fl)
      → service_total stats m ≡ some n
      → plus_if
          (metric_name service_packets_out_total == metric_name m && s)
          (prom.float64 stats.out_pkts)
          (plus_if
            (metric_name service_packets_in_total == metric_name m && s)
            (prom.float64 stats.in_pkts)
            (plus_if
              (metric_name service_bytes_out_total == metric_name m && s)
              (prom.float64 stats.out_bytes)
              (plus_if
                (metric_name service_bytes_in_total == metric_name m && s)
                (prom.float64 stats.in_bytes)
                (plus_if
                  (metric_name service_connections_total == metric_name m && s)
                  (prom.float64 stats.connections)
                  v))))
        ≡ plus_if s (prom.float64 n) v
  the_own stats service_connections_total n s v p =
      ap (λ k. plus_if s (prom.float64 k) v) (some-injective p)
  the_own stats service_bytes_in_total n s v p =
      ap (λ k. plus_if s (prom.float64 k) v) (some-injective p)
  the_own stats service_bytes_out_total n s v p =
      ap (λ k. plus_if s (prom.float64 k) v) (some-injective p)
  the_own stats service_packets_in_total n s v p =
      ap (λ k. plus_if s (prom.float64 k) v) (some-injective p)
  the_own stats service_packets_out_total n s v p =
      ap (λ k. plus_if s (prom.float64 k) v) (some-injective p)
  the_own stats m n s v p = absurd (cc)

  -- SetServiceTraffic adds the totals to the counters with its labels.
  pub value-set_service_traffic :
      (svc : ServiceConfig) (stats : ServiceTrafficStats) (m : Metric) (n : ℕ) (l : Labels) (r : R)
      → service_total stats m ≡ some n
      → value (metric_name m) l (
          set_service_traffic prom svc.name svc.listen svc.protocol stats.connections stats.in_bytes
            stats.out_bytes stats.in_pkts stats.out_pkts r)
        ≡ plus_if (labels_of svc == l) (prom.float64 n) (value (metric_name m) l r)
  unfolding set_service_traffic
  value-set_service_traffic svc stats m n l r p =
      value-adds (metric_name m) (metric_name service_connections_total)
        (metric_name service_bytes_in_total) (metric_name service_bytes_out_total)
        (metric_name service_packets_in_total) (metric_name service_packets_out_total)
        (labels_of svc) l (prom.float64 stats.connections) (prom.float64 stats.in_bytes)
        (prom.float64 stats.out_bytes) (prom.float64 stats.in_pkts) (prom.float64 stats.out_pkts) r
      ∙ the_own stats m n (labels_of svc == l) (value (metric_name m) l r) p

  -- The name of a service's counter is none of a backend's metrics.
  pub other_names :
      (stats : ServiceTrafficStats) (m : Metric) (n : ℕ)
      → service_total stats m ≡ some n
      → ((metric_name backend_connections_total == metric_name m) ≡ false)
        × ((metric_name backend_bytes_in_total == metric_name m) ≡ false)
        × ((metric_name backend_bytes_out_total == metric_name m) ≡ false)
        × ((metric_name backend_active_connections == metric_name m) ≡ false)
        × ((metric_name backend_inactive_connections == metric_name m) ≡ false)
  other_names stats service_connections_total n p = (refl, refl, refl, refl, refl)
  other_names stats service_bytes_in_total n p = (refl, refl, refl, refl, refl)
  other_names stats service_bytes_out_total n p = (refl, refl, refl, refl, refl)
  other_names stats service_packets_in_total n p = (refl, refl, refl, refl, refl)
  other_names stats service_packets_out_total n p = (refl, refl, refl, refl, refl)
  other_names stats m n p = absurd (cc)

  pub value-add-other :
      (name j : String) (labels l : Labels) (x : Fl) (r : R)
      → (name == j) ≡ false
      → value j l (prom.add name labels x r) ≡ value j l r
  value-add-other name j labels l x r other =
      registry.value-add name j labels l x r
      ∙ ap (λ b. plus_if (b && labels == l) x (value j l r)) other

  pub value-set-other :
      (name j : String) (labels l : Labels) (x : Fl) (r : R)
      → (name == j) ≡ false
      → value j l (prom.set name labels x r) ≡ value j l r
  value-set-other name j labels l x r other =
      registry.value-set name j labels l x r
      ∙ ap (λ b. if b && labels == l then x else value j l r) other
