-- ===== src/Config/Validate/Sound.antt =====
-- What Validate guarantees of a configuration that it accepts.
use Prim.Native.Nat.{suc}
use Prim.Native.String.{◌++◌}
use mathlib.Core.Path.{subst}
use ezlb.Shared.{ℕ, ◌≡◌, refl, ap, String, Bool, true, false, not, ◌&&◌, ◌||◌, List, [], ◌∷◌, arith}
use ezlb.Shared.Eq.{◌==◌, string_eq, ==_iff}
use ezlb.Shared.GoMap.{GoMap, lookup, insert, lookup-insert}
use ezlb.Shared.Int.{is_nonpositive}
use ezlb.Shared.Result.{ok, >>=-eq-ok, ok-injective}
use ezlb.Shared.Tests.{is_some}
use ezlb.Std.{Std}
use ezlb.Config.{Config, ServiceConfig, BackendConfig}
use ezlb.Config.Log.{get_level}
use ezlb.Config.Validate.{
  ConfigError, require, protocol_of, is_valid_protocol, is_valid_scheduler, is_valid_level,
  has_backends, has_services, listen_key, validate_address, validate_health_check, validate_snat,
  validate_backends, validate_service, validate_services, validate, validate_traffic,
  unsupported_level, no_services, name_required, duplicate_name, invalid_listen, invalid_listen_ip,
  listen_port_required, unsupported_protocol, duplicate_listen, unsupported_scheduler,
  backend_required, backend_address_required, invalid_backend_address, invalid_backend_ip,
  backend_port_required, duplicate_backend, weight_not_positive,
}

abbrev pub is_member : String → List String → Bool
is_member x [] = false
is_member x (y ∷ ys) = x == y || is_member x ys

-- No text occurs twice.
abbrev pub is_distinct : List String → Bool
is_distinct [] = true
is_distinct (x ∷ xs) = not (is_member x xs) && is_distinct xs

-- None of the texts is in the set.
abbrev is_unseen : GoMap String Bool → List String → Bool
is_unseen set [] = true
is_unseen set (x ∷ xs) = not (is_some (lookup x set)) && is_unseen set xs

is_unseen-insert :
    (k : String) (set : GoMap String Bool) (xs : List String)
    → is_unseen (insert k true set) xs ≡ (not (is_member k xs) && is_unseen set xs)
is_unseen-insert k set [] = refl
is_unseen-insert k set (x ∷ xs) =
    ground (arith, is_unseen-insert k set xs, lookup-insert k x true set, ==_iff {A = String} k x)

abbrev pub addresses : List BackendConfig → List String
addresses [] = []
addresses (b ∷ bs) = b.address ∷ addresses bs

abbrev pub has_positive_weights : List BackendConfig → Bool
has_positive_weights [] = true
has_positive_weights (b ∷ bs) = not (is_nonpositive b.weight) && has_positive_weights bs

-- What is required of one service, apart from the texts that the standard library reads.
abbrev pub is_sound : Std → ServiceConfig → Bool
is_sound std svc =
    is_valid_protocol svc.protocol
    && is_valid_scheduler svc.scheduler
    && (svc.snat_ip == "" || svc.full_nat)
    && has_backends std svc.backends
    && is_distinct (addresses svc.backends)
    && has_positive_weights svc.backends

abbrev pub are_sound : Std → List ServiceConfig → Bool
are_sound std [] = true
are_sound std (svc ∷ services) = is_sound std svc && are_sound std services

abbrev pub names_of : List ServiceConfig → List String
names_of [] = []
names_of (svc ∷ services) = svc.name ∷ names_of services

abbrev pub listens_of : Std → List ServiceConfig → List String
listens_of std [] = []
listens_of std (svc ∷ services) = listen_key std svc ∷ listens_of std services

require-true : (b : Bool) (e : ConfigError) {u : Unit {0}} → require b e ≡ ok u → b ≡ true
require-true true e p = refl
require-true false e p = cc

module _ (std : Std) where
  backends_lem :
      (name : String) (j : ℕ) (seen : GoMap String Bool) (backends : List BackendConfig)
      → validate_backends std name j seen backends ≡ ok tt
      → (is_distinct (addresses backends) ≡ true)
        × (is_unseen seen (addresses backends) ≡ true)
        × (has_positive_weights backends ≡ true)
  unfolding validate_backends
  backends_lem name j seen [] p = (refl, refl, refl)
  backends_lem name j seen (b ∷ backends) p =
      let (u1, e1, p1) =
        >>=-eq-ok (require (not (b.address == "")) (backend_address_required name j)) _ p in
      let (u2, e2, p2) =
        >>=-eq-ok
          (validate_address std b.address (invalid_backend_address name j b.address)
            (invalid_backend_ip name j) (backend_port_required name j))
          _ p1 in
      let (u3, e3, p3) =
        >>=-eq-ok
          (require (not (is_some (lookup b.address seen))) (duplicate_backend name j b.address)) _
          p2 in
      let (u4, e4, p4) =
        >>=-eq-ok (require (not (is_nonpositive b.weight)) (weight_not_positive name j)) _ p3 in
      let ih = backends_lem name (suc j) (insert b.address true seen) backends p4 in
      let new = require-true _ _ e3 in
      let positive = require-true _ _ e4 in
      let split = is_unseen-insert b.address seen (addresses backends) in
      (ground (arith, ih, split), ground (arith, ih, split, new), ground (arith, ih, positive))

  snat_lem :
      (svc : ServiceConfig)
      → validate_snat std svc ≡ ok tt
      → (svc.snat_ip == "" || svc.full_nat) ≡ true
  unfolding validate_snat
  snat_lem svc p = ground (arith, p)

  abbrev filled : ServiceConfig → ServiceConfig
  filled svc = record svc { protocol = protocol_of svc }

  service_lem :
      (i : ℕ) (names listens : GoMap String Bool) (svc : ServiceConfig)
      → validate_service std i names listens svc ≡ ok tt
      → (is_sound std (filled svc) ≡ true)
        × (is_some (lookup svc.name names) ≡ false)
        × (is_some (lookup (listen_key std svc) listens) ≡ false)
  unfolding validate_service
  service_lem i names listens svc p =
      let (u1, e1, p1) = >>=-eq-ok (require (not (svc.name == "")) (name_required i)) _ p in
      let (u2, e2, p2) =
        >>=-eq-ok (require (not (is_some (lookup svc.name names))) (duplicate_name i svc.name)) _
          p1 in
      let (u3, e3, p3) =
        >>=-eq-ok
          (validate_address std svc.listen (invalid_listen svc.name svc.listen)
            (invalid_listen_ip svc.name) (listen_port_required svc.name))
          _ p2 in
      let (u4, e4, p4) =
        >>=-eq-ok
          (require (is_valid_protocol (protocol_of svc))
            (unsupported_protocol svc.name (protocol_of svc)))
          _ p3 in
      let (u5, e5, p5) =
        >>=-eq-ok
          (require (not (is_some (lookup (listen_key std svc) listens)))
            (duplicate_listen svc.name svc.listen (protocol_of svc)))
          _ p4 in
      let (u6, e6, p6) =
        >>=-eq-ok
          (require (is_valid_scheduler svc.scheduler)
            (unsupported_scheduler svc.name svc.scheduler))
          _ p5 in
      let (u7, e7, p7) = >>=-eq-ok (validate_health_check std svc.name svc.health_check) _ p6 in
      let (u8, e8, p8) = >>=-eq-ok (validate_snat std svc) _ p7 in
      let (u9, e9, p9) =
        >>=-eq-ok (require (has_backends std svc.backends) (backend_required svc.name)) _ p8 in
      let protocol = require-true _ _ e4 in
      let scheduler = require-true _ _ e6 in
      let backends = require-true _ _ e9 in
      let sound = backends_lem svc.name 0 [] svc.backends p9 in
      let snat = snat_lem svc e8 in
      let new_name = require-true _ _ e2 in
      let new_listen = require-true _ _ e5 in
      (
        rw (protocol, is_sound) (rw scheduler (rw snat (rw backends (rw sound.0 sound.2)))),
        ground (arith, new_name),
        ground (arith, new_listen),
      )

  protocol_of-filled : (svc : ServiceConfig) → protocol_of (filled svc) ≡ protocol_of svc
  protocol_of-filled svc = ground (arith, ==_iff {A = String} svc.protocol "")

  listen_key-filled : (svc : ServiceConfig) → listen_key std (filled svc) ≡ listen_key std svc
  listen_key-filled svc = ap (λ p. svc.listen ++ "/" ++ p) (protocol_of-filled svc)

  -- The properties of the services, relative to the sets of the loop.
  abbrev AreAccepted : GoMap String Bool → GoMap String Bool → List ServiceConfig → Type 0
  AreAccepted names listens out =
      (is_distinct (names_of out) ≡ true)
      × (is_unseen names (names_of out) ≡ true)
      × (is_distinct (listens_of std out) ≡ true)
      × (is_unseen listens (listens_of std out) ≡ true)
      × (are_sound std out ≡ true)

  services_lem :
      (i : ℕ) (names listens : GoMap String Bool) (services out : List ServiceConfig)
      → validate_services std i names listens services ≡ ok out
      → AreAccepted names listens out
  unfolding validate_services
  services_lem i names listens [] out p =
      subst (AreAccepted names listens) (ok-injective p) (refl, refl, refl, refl, refl)
  services_lem i names listens (svc ∷ services) out p =
      let (u1, e1, p1) = >>=-eq-ok (validate_service std i names listens svc) _ p in
      let names' = insert svc.name true names in
      let listens' = insert (listen_key std svc) true listens in
      let (rest, e2, p2) =
        >>=-eq-ok (validate_services std (suc i) names' listens' services) _ p1 in
      let ih = services_lem (suc i) names' listens' services rest e2 in
      let (sound, new_name, new_listen) = service_lem i names listens svc e1 in
      let split = is_unseen-insert svc.name names (names_of rest) in
      let split' = is_unseen-insert (listen_key std svc) listens (listens_of std rest) in
      let key = listen_key-filled svc in
      subst (AreAccepted names listens) (ok-injective p2) (
        ground (arith, ih.0, ih.1, split),
        ground (arith, ih.1, split, new_name),
        rw key (ground (arith, ih.2, ih.3, split')),
        rw key (ground (arith, ih.3, split', new_listen)),
        rw sound ih.4,
      )

  services_kept :
      (i : ℕ) (names listens : GoMap String Bool) (services out : List ServiceConfig)
      → validate_services std i names listens services ≡ ok out
      → has_services std services ≡ true
      → has_services std out ≡ true
  unfolding validate_services
  services_kept i names listens [] out p some_service = absurd (cc)
  services_kept i names listens (svc ∷ services) out p some_service =
      let (u1, e1, p1) = >>=-eq-ok (validate_service std i names listens svc) _ p in
      let (rest, e2, p2) =
        >>=-eq-ok
          (validate_services std (suc i) (insert svc.name true names)
            (insert (listen_key std svc) true listens) services)
          _ p1 in
      subst (λ l. has_services std l ≡ true) (ok-injective p2) refl

  -- In a configuration that Validate accepts no two services have the same name or the same listen
  -- address and protocol; each service has a supported protocol and scheduler, a snat_ip only with
  -- full_nat, and at least one backend, and its backends have distinct addresses and positive
  -- weights.
  pub validate-are_sound :
      (cfg out : Config)
      → validate std cfg ≡ ok out
      → (is_distinct (names_of out.services) ≡ true)
        × (is_distinct (listens_of std out.services) ≡ true)
        × (has_services std out.services ≡ true)
        × (are_sound std out.services ≡ true)
  unfolding validate
  validate-are_sound cfg out p =
      let (u1, e1, p1) =
        >>=-eq-ok
          (require (is_valid_level (get_level cfg.global.log))
            (unsupported_level (get_level cfg.global.log)))
          _ p in
      let (u2, e2, p2) = >>=-eq-ok (validate_traffic std cfg.global.log.traffic) _ p1 in
      let (u3, e3, p3) = >>=-eq-ok (require (has_services std cfg.services) no_services) _ p2 in
      let (services, e4, p4) = >>=-eq-ok (validate_services std 0 [] [] cfg.services) _ p3 in
      let lem = services_lem 0 [] [] cfg.services services e4 in
      subst
        (λ (c : Config).
          (is_distinct (names_of c.services) ≡ true)
          × (is_distinct (listens_of std c.services) ≡ true)
          × (has_services std c.services ≡ true)
          × (are_sound std c.services ≡ true))
        (ok-injective p4)
        (lem.0, lem.2, services_kept 0 [] [] cfg.services services e4 (require-true _ _ e3), lem.4)
