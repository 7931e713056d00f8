-- ===== src/Trafficlog/Collector/Metered.antt =====
-- What a collection does to the exported counters of the services.
use ezlb.Shared.{
  ◌≡◌, refl, ◌∙◌, ap, sym, inl, inr, ℕ, String, Option, none, some, List, [], ◌∷◌, arith,
}
use ezlb.Shared.Eq.{◌==◌, string_eq, list_eq, pair_eq, ==_iff}
use ezlb.Shared.GoMap.{GoMap, lookup, insert, HasDistinctKeys}
use ezlb.Shared.Index.{IsKeyed, IsKeyed-insert}
use ezlb.Shared.Order.{RangeOrder, lookup-arrange, HasDistinctKeys-arrange}
use ezlb.Shared.Tests.{Option-cases, Bool-cases}
use ezlb.Config.{ServiceConfig}
use ezlb.Metrics.{
  Metric, backend_connections_total, backend_bytes_in_total, backend_bytes_out_total,
  backend_active_connections, backend_inactive_connections, metric_name, Labels, Prometheus,
  backend_labels, set_backend_traffic, set_backend_connections,
}
use ezlb.Trafficlog.{ServiceTrafficStats, BackendTrafficStats, build_service_config_map}
use ezlb.Trafficlog.Collector.{
  Collector, TrafficSnapshot, extract_backend_address, update_service_metrics,
  update_backend_metrics, update_metrics,
}
use ezlb.Trafficlog.Collector.Registry.{
  IsRegistry, service_total, labels_of, config_key, key_of_labels, some-injective, plus_if,
  value-set_service_traffic, other_names, value-add-other, value-set-other,
}

module _ {R Fl : Type 0} (prom : Prometheus R Fl) (value : String → Labels → R → Fl)
    (plus : Fl → Fl → Fl) (registry : IsRegistry prom value plus) (m : Metric)
    (counts : ServiceTrafficStats → ℕ)
    (counted : (stats : ServiceTrafficStats) → service_total stats m ≡ some (counts stats)) where
  module _ (cfgs : GoMap String ServiceConfig) (keyed : IsKeyed config_key cfgs)
      (split : String → String → List String) where
    value-backend :
        (svc address : String) (protocol : String) (stats : BackendTrafficStats) (l : Labels)
        (r : R)
        → value (metric_name m) l (
            set_backend_connections prom svc address protocol stats.active_connections
              stats.inactive_connections
              (set_backend_traffic prom svc address protocol stats.connections stats.in_bytes
                stats.out_bytes r))
          ≡ value (metric_name m) l r
    unfolding set_backend_connections set_backend_traffic
    value-backend svc address protocol stats l r =
        let none_of : ServiceTrafficStats = record {
          connections = 0;
          in_pkts = 0;
          out_pkts = 0;
          in_bytes = 0;
          out_bytes = 0;
        } in
        let (a, b, c, d, e) =
          other_names prom value plus registry none_of m (counts none_of) (counted none_of) in
        let labels = backend_labels svc address protocol in
        let add1 = prom.add (metric_name backend_connections_total) labels in
        let add2 = prom.add (metric_name backend_bytes_in_total) labels in
        let add3 = prom.add (metric_name backend_bytes_out_total) labels in
        let set4 = prom.set (metric_name backend_active_connections) labels in
        let r1 = add1 (prom.float64 stats.connections) r in
        let r2 = add2 (prom.float64 stats.in_bytes) r1 in
        let r3 = add3 (prom.float64 stats.out_bytes) r2 in
        let r4 = set4 (prom.float64 stats.active_connections) r3 in
        value-set-other prom value plus registry (metric_name backend_inactive_connections)
          (metric_name m) labels l (prom.float64 stats.inactive_connections) r4 e
        ∙ value-set-other prom value plus registry (metric_name backend_active_connections)
            (metric_name m) labels l (prom.float64 stats.active_connections) r3 d
        ∙ value-add-other prom value plus registry (metric_name backend_bytes_out_total)
            (metric_name m) labels l (prom.float64 stats.out_bytes) r2 c
        ∙ value-add-other prom value plus registry (metric_name backend_bytes_in_total)
            (metric_name m) labels l (prom.float64 stats.in_bytes) r1 b
        ∙ value-add-other prom value plus registry (metric_name backend_connections_total)
            (metric_name m) labels l (prom.float64 stats.connections) r a

    value-update_backend_metrics :
        (backends : GoMap String BackendTrafficStats) (l : Labels) (r : R)
        → value (metric_name m) l (update_backend_metrics split prom cfgs backends r)
          ≡ value (metric_name m) l r
    unfolding update_backend_metrics
    value-update_backend_metrics [] l r = refl
    value-update_backend_metrics ((key, stats) ∷ backends) l r =
        let address = extract_backend_address split key in
        elim (Option-cases (lookup stats.service_key cfgs)) [
          | inl absent ↦
              rw (absent, update_backend_metrics) (value-update_backend_metrics backends l r)
          | inr (svc, there) ↦
              rw (there, update_backend_metrics)
                (value-update_backend_metrics backends l _
                  ∙ value-backend svc.name address svc.protocol stats l r)
        ]

    module _ (key : String) (svc : ServiceConfig) (there : lookup key cfgs ≡ some svc) where
      abbrev after : Option ServiceTrafficStats → Fl → Fl
      after none v = v
      after (some stats) v = plus v (prom.float64 (counts stats))

      -- Other keys have other labels.
      other_labels :
          (k : String) (svc' : ServiceConfig)
          → lookup k cfgs ≡ some svc'
          → (labels_of svc' == labels_of svc) ≡ (k == key)
      other_labels k svc' here = elim (Bool-cases (k == key)) [
        | inl same ↦
            let at : k ≡ key = (==_iff {A = String} k key).0 same in
            let equal : svc' ≡ svc =
              some-injective (sym here ∙ ap (λ j. lookup j cfgs) at ∙ there) in
            (==_iff {A = Labels} (labels_of svc') (labels_of svc)).1 (ap labels_of equal) ∙ sym same
        | inr differs ↦ elim (Bool-cases (labels_of svc' == labels_of svc)) [
          | inl agree ↦
              let equal : config_key svc' ≡ config_key svc =
                ap key_of_labels ((==_iff {A = Labels} (labels_of svc') (labels_of svc)).0 agree) in
              let at : k ≡ key = sym (keyed k svc' here) ∙ equal ∙ keyed key svc there in
              absurd (ground (arith, differs, at, ==_iff {A = String} k key))
          | inr other ↦ other ∙ sym differs
        ]
      ]

      value-update_service_metrics :
          (visited : GoMap String ServiceTrafficStats) (r : R)
          → HasDistinctKeys visited
          → value (metric_name m) (labels_of svc) (update_service_metrics split prom cfgs visited r)
            ≡ after (lookup key visited) (value (metric_name m) (labels_of svc) r)
      unfolding update_service_metrics lookup
      value-update_service_metrics [] r distinct = refl
      value-update_service_metrics ((k, stats) ∷ visited) r distinct =
          elim (Option-cases (lookup k cfgs)) [
            | inl absent ↦
                rw (absent, update_service_metrics)
                  (value-update_service_metrics visited r distinct.1
                    ∙ ap (λ e. after e (value (metric_name m) (labels_of svc) r))
                        (ground (arith, absent, there, ==_iff {A = String} k key)))
            | inr (svc', here) ↦
                rw (here, update_service_metrics)
                  (value-update_service_metrics visited _ distinct.1
                    ∙ ap (after (lookup key visited)) (
                        value-set_service_traffic prom value plus registry svc' stats m
                          (counts stats) (labels_of svc) r (counted stats)
                        ∙ ap
                            (λ b.
                              plus_if prom value plus registry b (prom.float64 (counts stats))
                                (value (metric_name m) (labels_of svc) r))
                            (other_labels k svc' here))
                    ∙ elim (Bool-cases (k == key)) [
                      | inl same ↦
                          let at : k ≡ key = (==_iff {A = String} k key).0 same in
                          rw same (
                            ap
                              (λ e. after e (
                                plus (value (metric_name m) (labels_of svc) r)
                                  (prom.float64 (counts stats))))
                              (ap (λ j. lookup j visited) (sym at) ∙ distinct.0))
                      | inr differs ↦ rw differs refl
                    ])
          ]

build_service_config_map-IsKeyed :
    (services : List ServiceConfig) (m : GoMap String ServiceConfig)
    → IsKeyed config_key m
    → IsKeyed config_key (build_service_config_map services m)
unfolding build_service_config_map
build_service_config_map-IsKeyed [] m keyed = keyed
build_service_config_map-IsKeyed (svc ∷ services) m keyed =
    build_service_config_map-IsKeyed services (insert (config_key svc) svc m)
      (IsKeyed-insert config_key svc m keyed)

module _ {R Fl : Type 0} (prom : Prometheus R Fl) (value : String → Labels → R → Fl)
    (plus : Fl → Fl → Fl) (registry : IsRegistry prom value plus) where
  -- For each of the five counters of a service, where the Prometheus client keeps its documentation and
  -- the snapshot has one entry for each service: a collection adds the whole total of the snapshot to
  -- the counter of a configured service, whatever was added before.
  pub update_metrics-service_total :
      (m : Metric) (counts : ServiceTrafficStats → ℕ)
      → ((stats : ServiceTrafficStats) → service_total stats m ≡ some (counts stats))
      → (split : String → String → List String) (o : RangeOrder) (c : Collector)
        (snapshot : TrafficSnapshot) (key : String) (stats : ServiceTrafficStats)
        (svc : ServiceConfig) (r : R)
      → HasDistinctKeys snapshot.services
      → lookup key snapshot.services ≡ some stats
      → lookup key (build_service_config_map c.services []) ≡ some svc
      → value (metric_name m) (labels_of svc) (update_metrics split prom o c snapshot r)
        ≡ plus (value (metric_name m) (labels_of svc) r) (prom.float64 (counts stats))
  unfolding update_metrics lookup
  update_metrics-service_total m counts counted split o c snapshot key stats svc r distinct here
        there =
      let cfgs = build_service_config_map c.services [] in
      let keyed = build_service_config_map-IsKeyed c.services [] (λ j v p. absurd (cc)) in
      let services = o.arrange snapshot.services in
      value-update_backend_metrics prom value plus registry m counts counted cfgs keyed split
        (o.arrange snapshot.backends) (labels_of svc)
        (update_service_metrics split prom cfgs services r)
      ∙ value-update_service_metrics prom value plus registry m counts counted cfgs keyed split key
          svc there services r (HasDistinctKeys-arrange o snapshot.services distinct)
      ∙ ap
          (λ e.
            after prom value plus registry m counts counted cfgs keyed split key svc there e
              (value (metric_name m) (labels_of svc) r))
          (lookup-arrange o snapshot.services distinct key ∙ here)
