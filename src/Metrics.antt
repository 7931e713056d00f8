-- ===== src/Metrics.antt =====
-- pkg/metrics/metrics.go: the exported metrics. The Prometheus client is a parameter, over the state
-- `R` of its registry and its values `Fl` (float64).
use ezlb.Shared.{ℕ, String, Bool, true, false, List, [], ◌∷◌}

-- The variables of the package.
pub data Metric : Type 0 where
  service_connections_total service_bytes_in_total service_bytes_out_total : Metric
  service_packets_in_total service_packets_out_total : Metric
  backend_connections_total backend_bytes_in_total backend_bytes_out_total : Metric
  backend_active_connections backend_inactive_connections backend_health_status : Metric
  config_reload_total reconcile_errors_total : Metric

abbrev pub metric_name : Metric → String
metric_name service_connections_total = "ezlb_service_connections_total"
metric_name service_bytes_in_total = "ezlb_service_bytes_in_total"
metric_name service_bytes_out_total = "ezlb_service_bytes_out_total"
metric_name service_packets_in_total = "ezlb_service_packets_in_total"
metric_name service_packets_out_total = "ezlb_service_packets_out_total"
metric_name backend_connections_total = "ezlb_backend_connections_total"
metric_name backend_bytes_in_total = "ezlb_backend_bytes_in_total"
metric_name backend_bytes_out_total = "ezlb_backend_bytes_out_total"
metric_name backend_active_connections = "ezlb_backend_active_connections"
metric_name backend_inactive_connections = "ezlb_backend_inactive_connections"
metric_name backend_health_status = "ezlb_backend_health_status"
metric_name config_reload_total = "ezlb_config_reload_total"
metric_name reconcile_errors_total = "ezlb_reconcile_errors_total"

-- prometheus.Labels
abbrev pub Labels : Type 0
Labels = List (String × String)

-- Add, Set and Delete of the metric that a name and labels select, and Inc of a plain counter.
pub record Prometheus (R Fl : Type 0) : Type 0 where
  pub add : String → Labels → Fl → R → R
  pub set : String → Labels → Fl → R → R
  pub delete_labels : String → Labels → R → R
  pub inc : String → R → R
  pub float64 : ℕ → Fl

abbrev pub service_labels : String → String → String → Labels
service_labels service listen protocol =
    ("service", service) ∷ ("listen", listen) ∷ ("protocol", protocol) ∷ []

abbrev pub backend_labels : String → String → String → Labels
backend_labels service backend protocol =
    ("service", service) ∷ ("backend", backend) ∷ ("protocol", protocol) ∷ []

abbrev pub health_labels : String → String → Labels
health_labels service backend = ("service", service) ∷ ("backend", backend) ∷ []

module _ {R Fl : Type 0} (prom : Prometheus R Fl) where
  open prom use {add, set, delete_labels, inc, float64}

  unfoldable pub set_service_traffic : String → String → String → ℕ → ℕ → ℕ → ℕ → ℕ → R → R
  set_service_traffic service listen protocol connections bytes_in bytes_out packets_in packets_out
        r =
      let labels = service_labels service listen protocol in
      let r = add (metric_name service_connections_total) labels (float64 connections) r in
      let r = add (metric_name service_bytes_in_total) labels (float64 bytes_in) r in
      let r = add (metric_name service_bytes_out_total) labels (float64 bytes_out) r in
      let r = add (metric_name service_packets_in_total) labels (float64 packets_in) r in
      add (metric_name service_packets_out_total) labels (float64 packets_out) r

  unfoldable pub set_backend_traffic : String → String → String → ℕ → ℕ → ℕ → R → R
  set_backend_traffic service backend protocol connections bytes_in bytes_out r =
      let labels = backend_labels service backend protocol in
      let r = add (metric_name backend_connections_total) labels (float64 connections) r in
      let r = add (metric_name backend_bytes_in_total) labels (float64 bytes_in) r in
      add (metric_name backend_bytes_out_total) labels (float64 bytes_out) r

  unfoldable pub set_backend_connections : String → String → String → ℕ → ℕ → R → R
  set_backend_connections service backend protocol active inactive r =
      let labels = backend_labels service backend protocol in
      let r = set (metric_name backend_active_connections) labels (float64 active) r in
      set (metric_name backend_inactive_connections) labels (float64 inactive) r

  abbrev pub health_value : Bool → Fl
  health_value true = float64 1
  health_value false = float64 0

  unfoldable pub set_backend_health : String → String → Bool → R → R
  set_backend_health service backend healthy =
      set (metric_name backend_health_status) (health_labels service backend) (health_value healthy)

  unfoldable pub inc_config_reload : R → R
  inc_config_reload = inc (metric_name config_reload_total)

  unfoldable pub inc_reconcile_errors : R → R
  inc_reconcile_errors = inc (metric_name reconcile_errors_total)

  unfoldable pub delete_backend_metrics : String → String → String → R → R
  delete_backend_metrics service backend protocol r =
      let labels = backend_labels service backend protocol in
      let r = delete_labels (metric_name backend_connections_total) labels r in
      let r = delete_labels (metric_name backend_bytes_in_total) labels r in
      let r = delete_labels (metric_name backend_bytes_out_total) labels r in
      let r = delete_labels (metric_name backend_active_connections) labels r in
      let r = delete_labels (metric_name backend_inactive_connections) labels r in
      delete_labels (metric_name backend_health_status) (health_labels service backend) r

  unfoldable pub delete_service_metrics : String → String → String → R → R
  delete_service_metrics service listen protocol r =
      let labels = service_labels service listen protocol in
      let r = delete_labels (metric_name service_connections_total) labels r in
      let r = delete_labels (metric_name service_bytes_in_total) labels r in
      let r = delete_labels (metric_name service_bytes_out_total) labels r in
      let r = delete_labels (metric_name service_packets_in_total) labels r in
      delete_labels (metric_name service_packets_out_total) labels r
