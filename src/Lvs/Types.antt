-- ===== src/Lvs/Types.antt =====
-- pkg/lvs/ipvs_models.go and types.go: services, destinations, their keys, and the conversion of
-- configuration entries. A net.IP is a value here, so the copies of cloneIP are the value itself.
use ezlb.Shared.{ℕ, String, ◌≡◌, ◌↔◌, Bool, true, ◌&&◌, Option, none, some, arith}
use ezlb.Shared.Eq.{Eq, ◌==◌, ==_iff, nat_eq, string_eq}
use ezlb.Shared.Int.{ℤ, pos, to_uint16}
use ezlb.Shared.Result.{Result, ok, err, ◌>>=◌, or_fail}
use ezlb.Shared.Tests.{if◌then◌else◌}
use ezlb.Std.{Std}
use ezlb.Config.{ServiceConfig, BackendConfig}

pub record ServiceKey : Type 0 where
  pub address : String
  pub port : ℕ  -- uint16
  pub protocol : ℕ  -- uint16

pub record DestinationKey : Type 0 where
  pub address : String
  pub port : ℕ  -- uint16

pub record Stats : Type 0 where
  pub bytes_in : ℕ  -- uint64, and so bytes_out; the others are uint32
  pub bytes_out : ℕ
  pub connections : ℕ
  pub packets_in : ℕ
  pub packets_out : ℕ
  pub cps : ℕ
  pub bps_out : ℕ
  pub pps_in : ℕ
  pub pps_out : ℕ
  pub bps_in : ℕ

abbrev pub no_stats : Stats
no_stats = record {
  bytes_in = 0;
  bytes_out = 0;
  connections = 0;
  packets_in = 0;
  packets_out = 0;
  cps = 0;
  bps_out = 0;
  pps_in = 0;
  pps_out = 0;
  bps_in = 0;
}

pub record Service (IP : Type 0) : Type 0 where
  pub sched_name : String
  pub pe_name : String
  pub address : IP
  pub stats : Stats
  pub fwmark : ℕ
  pub flags : ℕ
  pub timeout : ℕ
  pub netmask : ℕ
  pub protocol : ℕ
  pub port : ℕ
  pub address_family : ℕ

pub record Destination (IP : Type 0) : Type 0 where
  pub address : IP
  pub stats : Stats
  pub weight : ℤ
  pub active_connections : ℤ
  pub inactive_connections : ℤ
  pub connection_flags : ℕ
  pub upper_threshold : ℕ
  pub lower_threshold : ℕ
  pub port : ℕ
  pub address_family : ℕ

abbrev service_key_beq : ServiceKey → ServiceKey → Bool
service_key_beq a b = a.address == b.address && a.port == b.port && a.protocol == b.protocol

pub service_key_beq_iff : (a b : ServiceKey) → (service_key_beq a b ≡ true) ↔ (a ≡ b)
service_key_beq_iff a b =
    ground (arith, ==_iff a.address b.address, ==_iff a.port b.port, ==_iff a.protocol b.protocol)

instance abbrev pub service_key_eq : Eq ServiceKey
service_key_eq = record { same = service_key_beq; same_iff = service_key_beq_iff }

abbrev destination_key_beq : DestinationKey → DestinationKey → Bool
destination_key_beq a b = a.address == b.address && a.port == b.port

pub destination_key_beq_iff : (a b : DestinationKey) → (destination_key_beq a b ≡ true) ↔ (a ≡ b)
destination_key_beq_iff a b = ground (arith, ==_iff a.address b.address, ==_iff a.port b.port)

instance abbrev pub destination_key_eq : Eq DestinationKey
destination_key_eq = record { same = destination_key_beq; same_iff = destination_key_beq_iff }

-- syscall.IPPROTO_TCP, IPPROTO_UDP, AF_INET and AF_INET6 on Linux.
abbrev pub ipproto_tcp : ℕ
ipproto_tcp = 6

abbrev pub ipproto_udp : ℕ
ipproto_udp = 17

abbrev pub af_inet : ℕ
af_inet = 2

abbrev pub af_inet6 : ℕ
af_inet6 = 10

abbrev pub connection_flag_masq : ℕ
connection_flag_masq = 0

pub data ConvertError : Type 0 where
  invalid_listen_address invalid_backend_address invalid_port invalid_ip : String → ConvertError
  unsupported_protocol : String → ConvertError

unfoldable pub protocol_from_string : String → Result ConvertError ℕ
protocol_from_string protocol =
    if protocol == "tcp"
    then ok ipproto_tcp
    else if protocol == "udp"
    then ok ipproto_udp
    else err (unsupported_protocol protocol)

unfoldable pub netmask_from_family : ℕ → ℕ
netmask_from_family family = if family == af_inet then 0xFFFFFFFF else 128

abbrev family_of : {A : Type 0} → Option A → ℕ
family_of (some ipv4) = af_inet
family_of none = af_inet6

-- if ipv4 := ip.To4(); ipv4 != nil { ip = ipv4 }
abbrev pub prefer : {A : Type 0} → Option A → A → A
prefer (some ipv4) ip = ipv4
prefer none ip = ip

module _ (std : Std) where
  open std use {IP, split_host_port, parse_ip, to4, ip_string, atoi}

  unfoldable pub address_family_from_ip : IP → ℕ
  address_family_from_ip ip = family_of (to4 ip)

  unfoldable pub service_key_from_config : ServiceConfig → Result ConvertError ServiceKey
  service_key_from_config svc = do
    (host, port_str) ← or_fail (split_host_port svc.listen) (invalid_listen_address svc.listen)
    port ← or_fail (atoi port_str) (invalid_port port_str)
    protocol ← protocol_from_string svc.protocol
    ok (record { address = host; port = to_uint16 port; protocol = protocol })

  unfoldable pub service_key_from_ipvs : Service IP → ServiceKey
  service_key_from_ipvs svc = record {
    address = ip_string svc.address;
    port = svc.port;
    protocol = svc.protocol;
  }

  unfoldable pub destination_key_from_ipvs : Destination IP → DestinationKey
  destination_key_from_ipvs dst = record { address = ip_string dst.address; port = dst.port }

  unfoldable pub config_to_ipvs_service : ServiceConfig → Result ConvertError (Service IP)
  unfolding address_family_from_ip netmask_from_family
  config_to_ipvs_service svc = do
    (host, port_str) ← or_fail (split_host_port svc.listen) (invalid_listen_address svc.listen)
    port ← or_fail (atoi port_str) (invalid_port port_str)
    parsed ← or_fail (parse_ip host) (invalid_ip host)
    let ip = prefer (to4 parsed) parsed
    protocol ← protocol_from_string svc.protocol
    let family = address_family_from_ip ip
    ok (record {
      sched_name = svc.scheduler;
      pe_name = "";
      address = ip;
      stats = no_stats;
      fwmark = 0;
      flags = 0;
      timeout = 0;
      netmask = netmask_from_family family;
      protocol = protocol;
      port = to_uint16 port;
      address_family = family;
    })

  unfoldable pub config_to_ipvs_destination : BackendConfig → Result ConvertError (Destination IP)
  unfolding address_family_from_ip
  config_to_ipvs_destination backend = do
    (host, port_str) ←
        or_fail (split_host_port backend.address) (invalid_backend_address backend.address)
    port ← or_fail (atoi port_str) (invalid_port port_str)
    parsed ← or_fail (parse_ip host) (invalid_ip host)
    let ip = prefer (to4 parsed) parsed
    ok (record {
      address = ip;
      stats = no_stats;
      weight = backend.weight;
      active_connections = pos 0;
      inactive_connections = pos 0;
      connection_flags = connection_flag_masq;
      upper_threshold = 0;
      lower_threshold = 0;
      port = to_uint16 port;
      address_family = address_family_from_ip ip;
    })
