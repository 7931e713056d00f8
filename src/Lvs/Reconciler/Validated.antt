-- ===== src/Lvs/Reconciler/Validated.antt =====
-- What a validated configuration guarantees to the reconciler: its services can be built.
mod Tests
use Prim.Native.Nat.{suc}
use mathlib.Core.Path.{subst}
use ezlb.Shared.{ℕ, ◌≡◌, refl, inl, inr, String, Bool, true, not, some, List, [], ◌∷◌, arith}
use ezlb.Shared.Eq.{◌==◌, string_eq}
use ezlb.Shared.GoMap.{GoMap, lookup, insert}
use ezlb.Shared.Int.{ℤ, is_nonpositive}
use ezlb.Shared.Result.{ok, >>=-eq-ok, ok-injective}
use ezlb.Shared.Tests.{is_some, is_some-some, Option-cases, Bool-cases}
use ezlb.Std.{Std}
use ezlb.Config.{Config, ServiceConfig, BackendConfig}
use ezlb.Config.Log.{get_level}
use ezlb.Config.Validate.{
  ConfigError, require, protocol_of, is_valid_protocol, validate_address, validate_backends,
  is_valid_level, is_valid_scheduler, has_backends, listen_key, unsupported_level, no_services,
  name_required, duplicate_name, invalid_listen, invalid_listen_ip, listen_port_required,
  unsupported_protocol, duplicate_listen, unsupported_scheduler, backend_required,
  backend_address_required, invalid_backend_address, invalid_backend_ip, backend_port_required,
  duplicate_backend, weight_not_positive, validate_service, validate_health_check, validate_snat,
  validate_services, validate, validate_traffic, has_services,
}
use ezlb.Lvs.Types.{
  Service, Destination, ServiceKey, service_key_eq, config_to_ipvs_service,
  config_to_ipvs_destination, service_key_from_config, protocol_from_string,
}
use ezlb.Lvs.Reconciler.{DesiredService}
use ezlb.Lvs.Reconciler.Build.{is_skipped, build_destinations, build_entry, build_desired_state}

module _ (std : Std) where
  open std use {IP, split_host_port, parse_ip, atoi}

  -- The port of the address, if it has one, is a number: Validate does not ask for it.
  abbrev pub HasNumericPort : String → Type 0
  HasNumericPort address =
      (host port : String)
      → split_host_port address ≡ some (host, port)
      → is_some (atoi port) ≡ true

  abbrev pub AllNumeric : List BackendConfig → Type 0
  AllNumeric [] = Unit
  AllNumeric (b ∷ bs) = HasNumericPort b.address × AllNumeric bs

  abbrev pub HasNumericPorts : List ServiceConfig → Type 0
  HasNumericPorts [] = Unit
  HasNumericPorts (svc ∷ services) =
      HasNumericPort svc.listen × AllNumeric svc.backends × HasNumericPorts services

  -- The parts that an address splits into.
  abbrev IsReadable : String → Type 0
  IsReadable address =
      (host : String) × (port : String) × (ip : IP) × (n : ℤ) × (split_host_port address
        ≡ some (host, port))
      × (parse_ip host ≡ some ip)
      × (atoi port ≡ some n)

  validate_address-IsReadable :
      (address : String) (e : ConfigError) (e' : String → ConfigError) (e'' : ConfigError)
      → validate_address std address e e' e'' ≡ ok tt
      → HasNumericPort address
      → IsReadable address
  unfolding validate_address
  validate_address-IsReadable address e e' e'' p numeric =
      elim (Option-cases (split_host_port address)) [
        | inl bad ↦ absurd (ground (arith, bad, p))
        | inr ((host, port), q) ↦ elim (Option-cases (parse_ip host)) [
          | inl bad ↦ absurd (ground (arith, q, bad, p))
          | inr (ip, q') ↦
              let (n, q'') = is_some-some (atoi port) (numeric host port q) in
              (host, port, ip, n, q, q', q'')
        ]
      ]

  destination_ok :
      (b : BackendConfig)
      → IsReadable b.address
      → (d : Destination IP) × (config_to_ipvs_destination std b ≡ ok d)
  unfolding config_to_ipvs_destination
  destination_ok b (host, port, ip, n, p, q, r) = rw p (rw q (rw r (_, refl)))

  service_ok :
      (svc : ServiceConfig)
      → IsReadable svc.listen
      → is_valid_protocol svc.protocol ≡ true
      → ((s : Service IP) × (config_to_ipvs_service std svc ≡ ok s))
        × ((k : ServiceKey) × (service_key_from_config std svc ≡ ok k))
  unfolding config_to_ipvs_service service_key_from_config protocol_from_string
  service_ok svc (host, port, ip, n, p, q, r) valid = elim (Bool-cases (svc.protocol == "tcp")) [
    | inl tcp ↦ rw p (rw q (rw r (rw tcp ((_, refl), (_, refl)))))
    | inr other ↦
        let udp : (svc.protocol == "udp") ≡ true = ground (arith, other, valid) in
        rw p (rw q (rw r (rw other (rw udp ((_, refl), (_, refl))))))
  ]

  destinations_ok :
      (is_healthy : String → Bool) (svc : ServiceConfig) (name : String) (j : ℕ)
      (seen : GoMap String Bool) (backends : List BackendConfig)
      → validate_backends std name j seen backends ≡ ok tt
      → AllNumeric backends
      → (ds : List (Destination IP)) × (build_destinations std is_healthy svc backends ≡ ok ds)
  unfolding validate_backends build_destinations
  destinations_ok is_healthy svc name j seen [] p numeric = ([], refl)
  destinations_ok is_healthy svc name j seen (b ∷ backends) p numeric =
      let (u1, e1, p1) =
        >>=-eq-ok (require (not (b.address == "")) (backend_address_required name j)) _ p in
      let (u2, e2, p2) =
        >>=-eq-ok
          (validate_address std b.address (invalid_backend_address name j b.address)
            (invalid_backend_ip name j) (backend_port_required name j))
          _ p1 in
      let (u3, e3, p3) =
        >>=-eq-ok
          (require (not (is_some (lookup b.address seen))) (duplicate_backend name j b.address)) _
          p2 in
      let (u4, e4, p4) =
        >>=-eq-ok (require (not (is_nonpositive b.weight)) (weight_not_positive name j)) _ p3 in
      let (ds, q) =
        destinations_ok is_healthy svc name _ (insert b.address true seen) backends p4 numeric.1 in
      let (d, r) = destination_ok b (validate_address-IsReadable b.address _ _ _ e2 numeric.0) in
      elim (Bool-cases (is_skipped std is_healthy svc b)) [
        | inl skip ↦ (ds, ground (arith, skip, q))
        | inr taken ↦ (d ∷ ds, ground (arith, taken, q, r))
      ]

  -- The service as Validate leaves it.
  abbrev pub filled : ServiceConfig → ServiceConfig
  filled svc = record svc { protocol = protocol_of svc }

  entry_ok :
      {E F : Type 0} (is_healthy : String → Bool) (i : ℕ) (names listens : GoMap String Bool)
      (svc : ServiceConfig)
      → validate_service std i names listens svc ≡ ok tt
      → HasNumericPort svc.listen
      → AllNumeric svc.backends
      → (e : ServiceKey × DesiredService IP) × (build_entry std {E = E} {F = F} is_healthy
            (filled svc)
          ≡ ok e)
  unfolding validate_service build_entry
  entry_ok is_healthy i names listens svc p numeric numeric' =
      let (u1, e1, p1) = >>=-eq-ok (require (not (svc.name == "")) (name_required i)) _ p in
      let (u2, e2, p2) =
        >>=-eq-ok (require (not (is_some (lookup svc.name names))) (duplicate_name i svc.name)) _
          p1 in
      let (u3, e3, p3) =
        >>=-eq-ok
          (validate_address std svc.listen (invalid_listen svc.name svc.listen)
            (invalid_listen_ip svc.name) (listen_port_required svc.name))
          _ p2 in
      let (u4, e4, p4) =
        >>=-eq-ok
          (require (is_valid_protocol (protocol_of svc))
            (unsupported_protocol svc.name (protocol_of svc)))
          _ p3 in
      let (u5, e5, p5) =
        >>=-eq-ok
          (require (not (is_some (lookup (listen_key std svc) listens)))
            (duplicate_listen svc.name svc.listen (protocol_of svc)))
          _ p4 in
      let (u6, e6, p6) =
        >>=-eq-ok
          (require (is_valid_scheduler svc.scheduler)
            (unsupported_scheduler svc.name svc.scheduler))
          _ p5 in
      let (u7, e7, p7) = >>=-eq-ok (validate_health_check std svc.name svc.health_check) _ p6 in
      let (u8, e8, p8) = >>=-eq-ok (validate_snat std svc) _ p7 in
      let (u9, e9, p9) =
        >>=-eq-ok (require (has_backends std svc.backends) (backend_required svc.name)) _ p8 in
      let ((s, q), (k, q')) =
        service_ok (filled svc) (validate_address-IsReadable svc.listen _ _ _ e3 numeric)
          (ground (arith, e4)) in
      let (ds, q'') =
        destinations_ok is_healthy (filled svc) svc.name 0 [] svc.backends p9 numeric' in
      rw q (rw q' (rw q'' (_, refl)))

  services_ok :
      {E F : Type 0} (is_healthy : String → Bool) (i : ℕ) (names listens : GoMap String Bool)
      (services filled_in : List ServiceConfig) (acc : GoMap ServiceKey (DesiredService IP))
      → validate_services std i names listens services ≡ ok filled_in
      → HasNumericPorts services
      → (dm : GoMap ServiceKey (DesiredService IP)) × (build_desired_state std {E = E} {F = F}
            is_healthy filled_in acc
          ≡ ok dm)
  unfolding validate_services build_desired_state
  services_ok {E} {F} is_healthy i names listens [] filled_in acc p numeric =
      subst
        (λ l.
          (dm : GoMap ServiceKey (DesiredService IP)) × (build_desired_state std {E = E} {F = F}
              is_healthy l acc
            ≡ ok dm))
        (ok-injective p) (acc, refl)
  services_ok {E} {F} is_healthy i names listens (svc ∷ services) filled_in acc p numeric =
      let (u1, e1, p1) = >>=-eq-ok (validate_service std i names listens svc) _ p in
      let (rest, e2, p2) = >>=-eq-ok (validate_services std _ _ _ services) _ p1 in
      let ((k, d), q) =
        entry_ok {E = E} {F = F} is_healthy i names listens svc e1 numeric.0 numeric.1 in
      let (dm, q') =
        services_ok {E = E} {F = F} is_healthy (suc i) (insert svc.name true names)
          (insert (listen_key std svc) true listens) services rest (insert k d acc) e2 numeric.2 in
      subst
        (λ l.
          (dm : GoMap ServiceKey (DesiredService IP)) × (build_desired_state std {E = E} {F = F}
              is_healthy l acc
            ≡ ok dm))
        (ok-injective p2) (rw q (dm, q'))

  -- Where Validate accepts a configuration and each port in it is a number, buildDesiredState
  -- succeeds on the configuration that Validate leaves, whichever backends are healthy.
  pub validate-build_desired_state :
      {E F : Type 0} (is_healthy : String → Bool) (cfg out : Config)
      → validate std cfg ≡ ok out
      → HasNumericPorts cfg.services
      → (dm : GoMap ServiceKey (DesiredService IP)) × (build_desired_state std {E = E} {F = F}
            is_healthy out.services []
          ≡ ok dm)
  unfolding validate
  validate-build_desired_state {E} {F} is_healthy cfg out p numeric =
      let (u1, e1, p1) =
        >>=-eq-ok
          (require (is_valid_level (get_level cfg.global.log))
            (unsupported_level (get_level cfg.global.log)))
          _ p in
      let (u2, e2, p2) = >>=-eq-ok (validate_traffic std cfg.global.log.traffic) _ p1 in
      let (u3, e3, p3) = >>=-eq-ok (require (has_services std cfg.services) no_services) _ p2 in
      let (services, e4, p4) = >>=-eq-ok (validate_services std 0 [] [] cfg.services) _ p3 in
      subst
        (λ (c : Config).
          (dm : GoMap ServiceKey (DesiredService IP)) × (build_desired_state std {E = E} {F = F}
              is_healthy c.services []
            ≡ ok dm))
        (ok-injective p4)
        (services_ok {E = E} {F = F} is_healthy 0 [] [] cfg.services services [] e4 numeric)
