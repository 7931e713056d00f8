-- ===== src/Config/Sample.antt =====
-- A configuration for tests: one service of two checked backends.
use ezlb.Shared.{none, true, List, [], ◌∷◌}
use ezlb.Shared.Int.{pos}
use ezlb.Config.{ServiceConfig, BackendConfig, HealthCheckConfig}

abbrev pub checked : HealthCheckConfig
checked = record {
  enabled = none;
  kind = "";
  interval = "";
  timeout = "";
  http_path = "";
  fail_count = pos 0;
  rise_count = pos 0;
  http_expected_status = pos 0;
}

abbrev pub backends : List BackendConfig
backends =
    record { address = "10.0.1.1:8080"; weight = pos 5 }
    ∷ record { address = "10.0.1.2:8080"; weight = pos 1 }
    ∷ []

abbrev pub web : ServiceConfig
web = record {
  traffic_log = none;
  name = "web";
  listen = "10.0.0.1:80";
  protocol = "tcp";
  scheduler = "wrr";
  snat_ip = "";
  backends = backends;
  health_check = checked;
  full_nat = true;
}
