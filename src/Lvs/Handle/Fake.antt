-- ===== src/Lvs/Handle/Fake.antt =====
-- pkg/lvs/ipvs_handle_fake.go: the in-memory IPVS implementation. fakeServiceKey has the fields of
-- ServiceKey, and fakeDestinationKey those of DestinationKey. A nil map is read as an
-- empty one; that a write to it panics, after Close, is not modelled.
use ezlb.Shared.{Option, none, some, List, [], map}
use ezlb.Shared.GoMap.{GoMap, lookup, insert, delete}
use ezlb.Shared.Index.{values}
use ezlb.Shared.Order.{RangeOrder}
use ezlb.Shared.Result.{Result, ok, err}
use ezlb.Std.{Std}
use ezlb.Lvs.Types.{
  Service, Destination, ServiceKey, DestinationKey, service_key_eq, destination_key_eq,
}
use ezlb.Lvs.Handle.{IpvsHandle}

pub data FakeError : Type 0 where
  service_exists service_missing : ServiceKey → FakeError
  destination_exists destination_missing : ServiceKey → DestinationKey → FakeError

pub record FakeHandle (IP : Type 0) : Type 0 where
  pub services : GoMap ServiceKey (Service IP)
  pub destinations : GoMap ServiceKey (GoMap DestinationKey (Destination IP))

module _ {IP : Type 0} where
  unfoldable pub clone_service : Service IP → Service IP
  clone_service svc = record {
    address = svc.address;
    protocol = svc.protocol;
    port = svc.port;
    fwmark = svc.fwmark;
    sched_name = svc.sched_name;
    flags = svc.flags;
    timeout = svc.timeout;
    netmask = svc.netmask;
    address_family = svc.address_family;
    pe_name = svc.pe_name;
    stats = svc.stats;
  }

  unfoldable pub clone_destination : Destination IP → Destination IP
  clone_destination dst = record {
    address = dst.address;
    port = dst.port;
    weight = dst.weight;
    connection_flags = dst.connection_flags;
    address_family = dst.address_family;
    upper_threshold = dst.upper_threshold;
    lower_threshold = dst.lower_threshold;
    active_connections = dst.active_connections;
    inactive_connections = dst.inactive_connections;
    stats = dst.stats;
  }

  -- NewIPVSHandle
  unfoldable pub new_ipvs_handle : FakeHandle IP
  new_ipvs_handle = record { services = []; destinations = [] }

module _ (std : Std) where
  open std use {IP, ip_string}

  unfoldable pub make_fake_service_key : Service IP → ServiceKey
  make_fake_service_key svc = record {
    address = ip_string svc.address;
    port = svc.port;
    protocol = svc.protocol;
  }

  unfoldable pub make_fake_destination_key : Destination IP → DestinationKey
  make_fake_destination_key dst = record { address = ip_string dst.address; port = dst.port }

  unfoldable pub new_service : Service IP → FakeHandle IP → FakeHandle IP × Option FakeError
  new_service svc h =
      let key = make_fake_service_key svc in
      elim (lookup key h.services) [
        | some _ ↦ (h, some (service_exists key))
        | none ↦ (
          record {
            services = insert key (clone_service svc) h.services;
            destinations = insert key [] h.destinations;
          },
          none,
        )
      ]

  unfoldable pub update_service : Service IP → FakeHandle IP → FakeHandle IP × Option FakeError
  update_service svc h =
      let key = make_fake_service_key svc in
      elim (lookup key h.services) [
        | none ↦ (h, some (service_missing key))
        | some _ ↦ (record h { services = insert key (clone_service svc) h.services }, none)
      ]

  unfoldable pub del_service : Service IP → FakeHandle IP → FakeHandle IP × Option FakeError
  del_service svc h =
      let key = make_fake_service_key svc in
      elim (lookup key h.services) [
        | none ↦ (h, some (service_missing key))
        | some _ ↦ (
          record { services = delete key h.services; destinations = delete key h.destinations },
          none,
        )
      ]

  unfoldable pub new_destination :
      Service IP → Destination IP → FakeHandle IP → FakeHandle IP × Option FakeError
  new_destination svc dst h =
      let svc_key = make_fake_service_key svc in
      let dst_key = make_fake_destination_key dst in
      elim (lookup svc_key h.destinations) [
        | none ↦ (h, some (service_missing svc_key))
        | some dst_map ↦ elim (lookup dst_key dst_map) [
          | some _ ↦ (h, some (destination_exists svc_key dst_key))
          | none ↦
              let dst_map' = insert dst_key (clone_destination dst) dst_map in
              (record h { destinations = insert svc_key dst_map' h.destinations }, none)
        ]
      ]

  unfoldable pub update_destination :
      Service IP → Destination IP → FakeHandle IP → FakeHandle IP × Option FakeError
  update_destination svc dst h =
      let svc_key = make_fake_service_key svc in
      let dst_key = make_fake_destination_key dst in
      elim (lookup svc_key h.destinations) [
        | none ↦ (h, some (service_missing svc_key))
        | some dst_map ↦ elim (lookup dst_key dst_map) [
          | none ↦ (h, some (destination_missing svc_key dst_key))
          | some _ ↦
              let dst_map' = insert dst_key (clone_destination dst) dst_map in
              (record h { destinations = insert svc_key dst_map' h.destinations }, none)
        ]
      ]

  unfoldable pub del_destination :
      Service IP → Destination IP → FakeHandle IP → FakeHandle IP × Option FakeError
  del_destination svc dst h =
      let svc_key = make_fake_service_key svc in
      let dst_key = make_fake_destination_key dst in
      elim (lookup svc_key h.destinations) [
        | none ↦ (h, some (service_missing svc_key))
        | some dst_map ↦ elim (lookup dst_key dst_map) [
          | none ↦ (h, some (destination_missing svc_key dst_key))
          | some _ ↦
              let dst_map' = delete dst_key dst_map in
              (record h { destinations = insert svc_key dst_map' h.destinations }, none)
        ]
      ]

  unfoldable pub flush : FakeHandle IP → FakeHandle IP × Option FakeError
  flush h = (record { services = []; destinations = [] }, none)

  -- Close, after which the maps are nil
  unfoldable pub close : FakeHandle IP → FakeHandle IP
  close h = record { services = []; destinations = [] }

  module _ (o : RangeOrder) where
    unfoldable pub get_services : FakeHandle IP → Result FakeError (List (Service IP))
    get_services h = ok (map clone_service (values (o.arrange h.services)))

    unfoldable pub get_destinations :
        Service IP → FakeHandle IP → Result FakeError (List (Destination IP))
    get_destinations svc h =
        let svc_key = make_fake_service_key svc in
        elim (lookup svc_key h.destinations) [
          | none ↦ err (service_missing svc_key)
          | some dst_map ↦ ok (map clone_destination (values (o.arrange dst_map)))
        ]

    -- fakeHandle as an IPVSHandle.
    abbrev pub fake_handle : IpvsHandle IP FakeError (FakeHandle IP)
    fake_handle = record {
      new_service = new_service;
      update_service = update_service;
      del_service = del_service;
      get_services = get_services;
      new_destination = new_destination;
      update_destination = update_destination;
      del_destination = del_destination;
      get_destinations = get_destinations;
      flush = flush;
      close = close;
    }
