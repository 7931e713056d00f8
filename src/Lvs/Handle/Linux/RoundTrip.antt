-- ===== src/Lvs/Handle/Linux/RoundTrip.antt =====
-- What the reconciler asks the kernel for is read back from it unchanged.
use mathlib.Core.Path.{subst}
use ezlb.Shared.{◌≡◌, refl, ◌∙◌}
use ezlb.Shared.Int.{pos}
use ezlb.Shared.Result.{ok, or_fail, >>=-eq-ok, ok-injective}
use ezlb.Std.{Std}
use ezlb.Config.{ServiceConfig, BackendConfig}
use ezlb.Lvs.Types.{
  Service, Destination, no_stats, invalid_listen_address, invalid_backend_address, invalid_port,
  invalid_ip, config_to_ipvs_service, config_to_ipvs_destination, protocol_from_string,
}
use ezlb.Lvs.Handle.Linux.{
  Moby, ServiceFields, DestinationFields, to_moby_service, from_moby_service, to_moby_destination,
  from_moby_destination,
}

-- The structs of moby/ipvs are Go structs: fields hold what the literal sets, and zero otherwise.
pub record IsStructs {IP E S : Type 0} (moby : Moby IP E S) : Type 0 where
  pub service-set : (f : ServiceFields IP) → moby.service_fields (moby.service f) ≡ f
  pub service-zero : (f : ServiceFields IP) → moby.service_stats (moby.service f) ≡ no_stats
  pub destination-set :
      (f : DestinationFields IP) → moby.destination_fields (moby.destination f) ≡ f
  pub destination-zero :
      (f : DestinationFields IP)
      → (moby.destination_stats (moby.destination f) ≡ no_stats)
        × (moby.active_connections (moby.destination f) ≡ pos 0)
        × (moby.inactive_connections (moby.destination f) ≡ pos 0)

-- The service without its statistics, and the destination without statistics and connections.
abbrev pub bare_service : {IP : Type 0} → Service IP → Service IP
bare_service svc = record svc { stats = no_stats }

abbrev pub bare_destination : {IP : Type 0} → Destination IP → Destination IP
bare_destination dst = record dst {
  stats = no_stats;
  active_connections = pos 0;
  inactive_connections = pos 0;
}

module _ {IP E S : Type 0} (moby : Moby IP E S) (structs : IsStructs moby) where
  from_moby_service-to_moby_service :
      (svc : Service IP) → from_moby_service moby (to_moby_service moby svc) ≡ bare_service svc
  unfolding from_moby_service to_moby_service
  from_moby_service-to_moby_service svc =
      rw (structs.service-set _) (rw (structs.service-zero _) refl)

  from_moby_destination-to_moby_destination :
      (dst : Destination IP)
      → from_moby_destination moby (to_moby_destination moby dst) ≡ bare_destination dst
  unfolding from_moby_destination to_moby_destination
  from_moby_destination-to_moby_destination dst =
      let f : DestinationFields IP = record {
        address = dst.address;
        weight = dst.weight;
        connection_flags = dst.connection_flags;
        upper_threshold = dst.upper_threshold;
        lower_threshold = dst.lower_threshold;
        port = dst.port;
        address_family = dst.address_family;
      } in
      let zero_of = structs.destination-zero f in
      rw (structs.destination-set f) (rw zero_of.0 (rw zero_of.1 (rw zero_of.2 refl)))

module _ (std : Std) where
  open std use {IP, split_host_port, parse_ip, to4, ip_string, atoi}

  config_to_ipvs_service-bare :
      (svc : ServiceConfig) (s : Service IP)
      → config_to_ipvs_service std svc ≡ ok s
      → bare_service s ≡ s
  unfolding config_to_ipvs_service
  config_to_ipvs_service-bare svc s p =
      let (hp, e1, p1) =
        >>=-eq-ok (or_fail (split_host_port svc.listen) (invalid_listen_address svc.listen)) _ p in
      let (port, e2, p2) = >>=-eq-ok (or_fail (atoi hp.1) (invalid_port hp.1)) _ p1 in
      let (ip, e3, p3) = >>=-eq-ok (or_fail (parse_ip hp.0) (invalid_ip hp.0)) _ p2 in
      let (protocol, e4, p4) = >>=-eq-ok (protocol_from_string svc.protocol) _ p3 in
      subst (λ t. bare_service t ≡ t) (ok-injective p4) refl

  config_to_ipvs_destination-bare :
      (b : BackendConfig) (d : Destination IP)
      → config_to_ipvs_destination std b ≡ ok d
      → bare_destination d ≡ d
  unfolding config_to_ipvs_destination
  config_to_ipvs_destination-bare b d p =
      let (hp, e1, p1) =
        >>=-eq-ok (or_fail (split_host_port b.address) (invalid_backend_address b.address)) _ p in
      let (port, e2, p2) = >>=-eq-ok (or_fail (atoi hp.1) (invalid_port hp.1)) _ p1 in
      let (ip, e3, p3) = >>=-eq-ok (or_fail (parse_ip hp.0) (invalid_ip hp.0)) _ p2 in
      subst (λ t. bare_destination t ≡ t) (ok-injective p3) refl

  -- Where moby/ipvs has Go structs, the service and the destination that ConfigToIPVSService and
  -- ConfigToIPVSDestination make are read back as they are from what the handle passes to the kernel.
  pub config_to_ipvs-from_moby :
      {E S : Type 0} (moby : Moby IP E S) (svc : ServiceConfig) (s : Service IP) (b : BackendConfig)
      (d : Destination IP)
      → IsStructs moby
      → config_to_ipvs_service std svc ≡ ok s
      → config_to_ipvs_destination std b ≡ ok d
      → (from_moby_service moby (to_moby_service moby s) ≡ s)
        × (from_moby_destination moby (to_moby_destination moby d) ≡ d)
  config_to_ipvs-from_moby moby svc s b d structs p q = (
    from_moby_service-to_moby_service moby structs s ∙ config_to_ipvs_service-bare svc s p,
    from_moby_destination-to_moby_destination moby structs d
        ∙ config_to_ipvs_destination-bare b d q,
  )
