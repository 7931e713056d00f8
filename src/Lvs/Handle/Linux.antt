-- ===== src/Lvs/Handle/Linux.antt =====
-- pkg/lvs/ipvs_handle_linux.go: the handle over moby/ipvs, which is a parameter: its two structs, by
-- the fields that the code sets and reads, and its calls, over the kernel's state `S` and errors `E`.
pub mod RoundTrip
mod Tests
use ezlb.Shared.{ℕ, String, Option, List, map}
use ezlb.Shared.Int.{ℤ}
use ezlb.Shared.Result.{Result, ok, err}
use ezlb.Lvs.Types.{Service, Destination, Stats}
use ezlb.Lvs.Handle.{IpvsHandle}

-- The fields that the literals of mobyipvs.Service and mobyipvs.Destination set.
pub record ServiceFields (IP : Type 0) : Type 0 where
  pub sched_name : String
  pub pe_name : String
  pub address : IP
  pub fwmark : ℕ
  pub flags : ℕ
  pub timeout : ℕ
  pub netmask : ℕ
  pub protocol : ℕ
  pub port : ℕ
  pub address_family : ℕ

pub record DestinationFields (IP : Type 0) : Type 0 where
  pub address : IP
  pub weight : ℤ
  pub connection_flags : ℕ
  pub upper_threshold : ℕ
  pub lower_threshold : ℕ
  pub port : ℕ
  pub address_family : ℕ

-- A struct with the given fields and zeros for the others; its fields; and the calls.
pub record Moby (IP E S : Type 0) : Type 1 where
  pub MobyService : Type 0
  pub MobyDestination : Type 0
  pub service : ServiceFields IP → MobyService
  pub service_fields : MobyService → ServiceFields IP
  pub service_stats : MobyService → Stats
  pub destination : DestinationFields IP → MobyDestination
  pub destination_fields : MobyDestination → DestinationFields IP
  pub destination_stats : MobyDestination → Stats
  pub active_connections : MobyDestination → ℤ
  pub inactive_connections : MobyDestination → ℤ
  pub new_service : MobyService → S → S × Option E
  pub update_service : MobyService → S → S × Option E
  pub del_service : MobyService → S → S × Option E
  pub get_services : S → Result E (List MobyService)
  pub new_destination : MobyService → MobyDestination → S → S × Option E
  pub update_destination : MobyService → MobyDestination → S → S × Option E
  pub del_destination : MobyService → MobyDestination → S → S × Option E
  pub get_destinations : MobyService → S → Result E (List MobyDestination)
  pub flush : S → S × Option E
  pub close : S → S

module _ {IP E S : Type 0} (moby : Moby IP E S) where
  open moby use {MobyService, MobyDestination}

  unfoldable pub to_moby_service : Service IP → MobyService
  to_moby_service svc = moby.service (record {
    sched_name = svc.sched_name;
    pe_name = svc.pe_name;
    address = svc.address;
    fwmark = svc.fwmark;
    flags = svc.flags;
    timeout = svc.timeout;
    netmask = svc.netmask;
    protocol = svc.protocol;
    port = svc.port;
    address_family = svc.address_family;
  })

  unfoldable pub from_moby_service : MobyService → Service IP
  from_moby_service ms =
      let f = moby.service_fields ms in
      record {
        sched_name = f.sched_name;
        pe_name = f.pe_name;
        address = f.address;
        stats = moby.service_stats ms;
        fwmark = f.fwmark;
        flags = f.flags;
        timeout = f.timeout;
        netmask = f.netmask;
        protocol = f.protocol;
        port = f.port;
        address_family = f.address_family;
      }

  unfoldable pub to_moby_destination : Destination IP → MobyDestination
  to_moby_destination dst = moby.destination (record {
    address = dst.address;
    weight = dst.weight;
    connection_flags = dst.connection_flags;
    upper_threshold = dst.upper_threshold;
    lower_threshold = dst.lower_threshold;
    port = dst.port;
    address_family = dst.address_family;
  })

  unfoldable pub from_moby_destination : MobyDestination → Destination IP
  from_moby_destination md =
      let f = moby.destination_fields md in
      record {
        address = f.address;
        stats = moby.destination_stats md;
        weight = f.weight;
        active_connections = moby.active_connections md;
        inactive_connections = moby.inactive_connections md;
        connection_flags = f.connection_flags;
        upper_threshold = f.upper_threshold;
        lower_threshold = f.lower_threshold;
        port = f.port;
        address_family = f.address_family;
      }

  unfoldable pub new_service : Service IP → S → S × Option E
  new_service svc = moby.new_service (to_moby_service svc)

  unfoldable pub update_service : Service IP → S → S × Option E
  update_service svc = moby.update_service (to_moby_service svc)

  unfoldable pub del_service : Service IP → S → S × Option E
  del_service svc = moby.del_service (to_moby_service svc)

  unfoldable pub get_services : S → Result E (List (Service IP))
  get_services s = elim (moby.get_services s) [
    | err e ↦ err e
    | ok services ↦ ok (map from_moby_service services)
  ]

  unfoldable pub new_destination : Service IP → Destination IP → S → S × Option E
  new_destination svc dst = moby.new_destination (to_moby_service svc) (to_moby_destination dst)

  unfoldable pub update_destination : Service IP → Destination IP → S → S × Option E
  update_destination svc dst =
      moby.update_destination (to_moby_service svc) (to_moby_destination dst)

  unfoldable pub del_destination : Service IP → Destination IP → S → S × Option E
  del_destination svc dst = moby.del_destination (to_moby_service svc) (to_moby_destination dst)

  unfoldable pub get_destinations : Service IP → S → Result E (List (Destination IP))
  get_destinations svc s = elim (moby.get_destinations (to_moby_service svc) s) [
    | err e ↦ err e
    | ok destinations ↦ ok (map from_moby_destination destinations)
  ]

  unfoldable pub flush : S → S × Option E
  flush = moby.flush

  unfoldable pub close : S → S
  close = moby.close

  -- linuxHandle as an IPVSHandle.
  abbrev pub linux_handle : IpvsHandle IP E S
  linux_handle = record {
    new_service = new_service;
    update_service = update_service;
    del_service = del_service;
    get_services = get_services;
    new_destination = new_destination;
    update_destination = update_destination;
    del_destination = del_destination;
    get_destinations = get_destinations;
    flush = flush;
    close = close;
  }
