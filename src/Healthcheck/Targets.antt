-- ===== src/Healthcheck/Targets.antt =====
-- Which addresses UpdateTargets leaves tracked, and with what health.
use ezlb.Shared.{
  ◌≡◌, refl, ◌∙◌, inl, inr, String, Bool, true, false, ◌||◌, none, List, [], ◌∷◌, arith,
}
use ezlb.Shared.Eq.{◌==◌, string_eq, ==_iff}
use ezlb.Shared.GoMap.{GoMap, lookup, insert, lookup-insert, lookup-delete}
use ezlb.Shared.Order.{RangeOrder, lookup-arrange}
use ezlb.Shared.Tests.{if◌then◌else◌, is_some, Option-cases}
use ezlb.Std.{Std}
use ezlb.Config.{ServiceConfig, BackendConfig}
use ezlb.Config.HealthCheck.{is_enabled}
use ezlb.Healthcheck.{
  ServiceCheckConfig, BackendStatus, Manager, health_of, is_healthy, stop_check,
  start_backend_check,
}
use ezlb.Healthcheck.Update.{
  start_missing, add_addresses, all_addresses, update_service, update_services, drop_backends,
  update_targets, enabled_check,
}
use ezlb.Healthcheck.Consistent.{IsConsistent}
use ezlb.Healthcheck.Consistent.Update.{update_services-IsConsistent}

abbrev pub has_backend : String → List BackendConfig → Bool
has_backend address [] = false
has_backend address (b ∷ backends) = b.address == address || has_backend address backends

-- An address of a backend of one of the services.
abbrev pub is_listed : String → List ServiceConfig → Bool
is_listed address [] = false
is_listed address (svc ∷ services) = has_backend address svc.backends || is_listed address services

abbrev pub AllEnabled : List ServiceConfig → Type 0
AllEnabled [] = Unit
AllEnabled (svc ∷ services) = (is_enabled svc.health_check ≡ true) × AllEnabled services

add_addresses-lem :
    (a : String) (backends : List BackendConfig) (acc : GoMap String Bool)
    → is_some (lookup a (add_addresses backends acc))
      ≡ (has_backend a backends || is_some (lookup a acc))
unfolding add_addresses
add_addresses-lem a [] acc = refl
add_addresses-lem a (b ∷ backends) acc =
    add_addresses-lem a backends (insert b.address true acc)
    ∙ ground (arith, lookup-insert b.address a true acc, ==_iff {A = String} b.address a)

all_addresses-lem :
    (a : String) (services : List ServiceConfig) (acc : GoMap String Bool)
    → is_some (lookup a (all_addresses services acc))
      ≡ (is_listed a services || is_some (lookup a acc))
unfolding all_addresses
all_addresses-lem a [] acc = refl
all_addresses-lem a (svc ∷ services) acc =
    all_addresses-lem a services (add_addresses svc.backends acc)
    ∙ ground (arith, add_addresses-lem a svc.backends acc)

start_one :
    (a : String) (b : BackendConfig) (c : ServiceCheckConfig) (m : Manager)
    → lookup b.address m.statuses ≡ none
    → let m' = start_backend_check b.address c m in
      (is_some (lookup a m'.statuses) ≡ (b.address == a || is_some (lookup a m.statuses)))
      × (health_of (lookup a m'.statuses) ≡ health_of (lookup a m.statuses))
unfolding start_backend_check
start_one a b c m absent =
    let s : BackendStatus = record {
      cancel = m.next;
      address = b.address;
      consecutive_fails = 0;
      consecutive_ok = 0;
      healthy = true;
    } in
    ground (arith, absent, lookup-insert b.address a s m.statuses, ==_iff {A = String} b.address a)

start_missing-lem :
    (a : String) (backends : List BackendConfig) (c : ServiceCheckConfig) (m : Manager)
    → let m' = start_missing backends c m in
      (is_some (lookup a m'.statuses) ≡ (has_backend a backends || is_some (lookup a m.statuses)))
      × (health_of (lookup a m'.statuses) ≡ health_of (lookup a m.statuses))
unfolding start_missing
start_missing-lem a [] c m = (refl, refl)
start_missing-lem a (b ∷ backends) c m = elim (Option-cases (lookup b.address m.statuses)) [
  | inl absent ↦
      let m1 = start_backend_check b.address c m in
      rw (absent, start_missing)
        (ground (arith, start_missing-lem a backends c m1, start_one a b c m absent))
  | inr (s, there) ↦
      rw (there, start_missing)
        (ground (arith, there, start_missing-lem a backends c m, ==_iff {A = String} b.address a))
]

update_services-lem :
    (std : Std) (a : String) (services : List ServiceConfig) (m : Manager)
    → AllEnabled services
    → let m' = update_services std services m in
      (is_some (lookup a m'.statuses) ≡ (is_listed a services || is_some (lookup a m.statuses)))
      × (health_of (lookup a m'.statuses) ≡ health_of (lookup a m.statuses))
unfolding update_services update_service
update_services-lem std a [] m on = (refl, refl)
update_services-lem std a (svc ∷ services) m on =
    let m1 = update_service std svc m in
    let c = enabled_check std svc.health_check in
    let one : (is_some (lookup a m1.statuses)
          ≡ (has_backend a svc.backends || is_some (lookup a m.statuses)))
        × (health_of (lookup a m1.statuses) ≡ health_of (lookup a m.statuses)) =
      rw (on.0, update_service)
        (start_missing-lem a svc.backends c
          (record m { services = insert svc.name c m.services })) in
    ground (arith, one, update_services-lem std a services m1 on.1)

drop_backends-lem :
    (a : String) (addresses : GoMap String Bool) (visited : GoMap String BackendStatus)
    (m : Manager)
    → lookup a (drop_backends addresses visited m).statuses ≡ (
        if is_some (lookup a addresses)
        then lookup a m.statuses
        else if is_some (lookup a visited)
        then none
        else lookup a m.statuses)
unfolding drop_backends lookup stop_check
drop_backends-lem a addresses [] m = ground arith
drop_backends-lem a addresses ((b, s) ∷ visited) m = elim (Option-cases (lookup b addresses)) [
  | inl gone ↦
      rw (gone, drop_backends)
        (ground (
          arith,
          gone,
          drop_backends-lem a addresses visited (stop_check b s m),
          lookup-delete b a m.statuses,
          ==_iff {A = String} b a,
        ))
  | inr (x, kept) ↦
      rw (kept, drop_backends)
        (ground (arith, kept, drop_backends-lem a addresses visited m, ==_iff {A = String} b a))
]

-- From a consistent state and a configuration whose services all have their health check enabled,
-- UpdateTargets leaves tracked exactly the addresses of the configured backends; a backend that was
-- tracked keeps its health, and any other counts as healthy.
pub update_targets-is_listed :
    (std : Std) (o : RangeOrder) (services : List ServiceConfig) (m : Manager)
    → IsConsistent m
    → AllEnabled services
    → (a : String)
    → let m' = update_targets std o services m in
      (is_some (lookup a m'.statuses) ≡ is_listed a services)
      × (is_healthy a m' ≡ (if is_listed a services then is_healthy a m else true))
unfolding update_targets is_healthy lookup
update_targets-is_listed std o services m ok on a =
    let m1 = update_services std services m in
    let ok1 = update_services-IsConsistent std services m ok in
    let dropped = drop_backends-lem a (all_addresses services []) (o.arrange m1.statuses) in
    rw (dropped _) (
      ground (
        arith,
        update_services-lem std a services m on,
        lookup-arrange o m1.statuses ok1.distinct a,
        all_addresses-lem a services [],
      ))
