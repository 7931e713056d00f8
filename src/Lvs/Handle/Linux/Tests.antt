-- ===== src/Lvs/Handle/Linux/Tests.antt =====
-- The conversions over structs that are records of their fields.
use ezlb.Shared.{◌≡◌, refl, String, none, []}
use ezlb.Shared.Int.{ℤ, pos, to_uint16}
use ezlb.Shared.Result.{ok}
use ezlb.Std.Sample.{sample_std}
use ezlb.Config.{BackendConfig}
use ezlb.Config.Sample.{web}
use ezlb.Lvs.Types.{
  Service, Destination, Stats, no_stats, config_to_ipvs_service, config_to_ipvs_destination,
  protocol_from_string,
}
use ezlb.Lvs.Handle.Linux.{
  Moby, ServiceFields, DestinationFields, to_moby_service, from_moby_service, to_moby_destination,
  from_moby_destination,
}
use ezlb.Lvs.Handle.Linux.RoundTrip.{IsStructs, config_to_ipvs-from_moby}

abbrev moby : Moby String (Unit {0}) (Unit {0})
moby = record {
  MobyService = ServiceFields String × Stats;
  MobyDestination = DestinationFields String × Stats × ℤ × ℤ;
  service = λ f. (f, no_stats);
  service_fields = λ m. m.0;
  service_stats = λ m. m.1;
  destination = λ f. (f, no_stats, pos 0, pos 0);
  destination_fields = λ m. m.0;
  destination_stats = λ m. m.1;
  active_connections = λ m. m.2;
  inactive_connections = λ m. m.3;
  new_service = λ m s. (s, none);
  update_service = λ m s. (s, none);
  del_service = λ m s. (s, none);
  get_services = λ s. ok [];
  new_destination = λ m d s. (s, none);
  update_destination = λ m d s. (s, none);
  del_destination = λ m d s. (s, none);
  get_destinations = λ m s. ok [];
  flush = λ s. (s, none);
  close = λ s. s;
}

moby-IsStructs : IsStructs moby
moby-IsStructs = record {
  service-set = λ f. refl;
  service-zero = λ f. refl;
  destination-set = λ f. refl;
  destination-zero = λ f. (refl, refl, refl);
}

abbrev service : Service String
service = record {
  sched_name = "wrr";
  pe_name = "";
  address = "10.0.0.1";
  stats = no_stats;
  fwmark = 0;
  flags = 0;
  timeout = 0;
  netmask = 4294967295;
  protocol = 6;
  port = 80;
  address_family = 2;
}

abbrev backend : BackendConfig
backend = record { address = "10.0.1.1:8080"; weight = pos 5 }

abbrev destination : Destination String
destination = record {
  address = "10.0.1.1";
  stats = no_stats;
  weight = pos 5;
  active_connections = pos 0;
  inactive_connections = pos 0;
  connection_flags = 0;
  upper_threshold = 0;
  lower_threshold = 0;
  port = 8080;
  address_family = 2;
}

config_to_ipvs-from_moby_example :
    (from_moby_service moby (to_moby_service moby service) ≡ service)
    × (from_moby_destination moby (to_moby_destination moby destination) ≡ destination)
unfolding config_to_ipvs_service protocol_from_string config_to_ipvs_destination to_uint16
config_to_ipvs-from_moby_example =
    config_to_ipvs-from_moby sample_std moby web service backend destination moby-IsStructs refl
      refl
