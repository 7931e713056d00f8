-- ===== src/Healthcheck/Consistent/Update.antt =====
-- UpdateTargets, handleCheckResult and Stop keep the invariant.
use ezlb.Shared.{◌≡◌, refl, inl, inr, String, Bool, some, List, [], ◌∷◌, arith}
use ezlb.Shared.Eq.{nat_eq, string_eq, ==_iff}
use ezlb.Shared.GoMap.{
  GoMap, lookup, HasDistinctKeys, lookup-insert, lookup-delete, HasDistinctKeys-insert,
}
use ezlb.Shared.Order.{RangeOrder, lookup-arrange, HasDistinctKeys-arrange}
use ezlb.Shared.Tests.{if◌then◌else◌, Option-cases, Bool-cases}
use ezlb.Std.{Std}
use ezlb.Config.{ServiceConfig, BackendConfig}
use ezlb.Config.HealthCheck.{is_enabled}
use ezlb.Healthcheck.{
  ServiceCheckConfig, BackendStatus, Manager, stop_check, stop_service_backends,
  handle_check_result, check_failed, check_succeeded,
}
use ezlb.Healthcheck.Update.{
  start_missing, update_service, update_services, drop_backends, update_targets, was_enabled,
  enabled_check,
}
use ezlb.Healthcheck.Consistent.{IsConsistent}
use ezlb.Healthcheck.Consistent.Steps.{
  ended, stop_check-IsConsistent, start_backend_check-IsConsistent,
}

-- The services of the manager are no part of the invariant.
IsConsistent-services :
    (m : Manager) (services : GoMap String ServiceCheckConfig)
    → IsConsistent m
    → IsConsistent (record m { services = services })
IsConsistent-services m services ok = record {
  distinct = ok.distinct;
  owned = ok.owned;
  held = ok.held;
  fresh = ok.fresh;
}

stop_service_backends-IsConsistent :
    (backends : List BackendConfig) (m : Manager)
    → IsConsistent m
    → IsConsistent (stop_service_backends backends m)
unfolding stop_service_backends
stop_service_backends-IsConsistent [] m ok = ok
stop_service_backends-IsConsistent (b ∷ backends) m ok =
    stop_service_backends-IsConsistent backends _
      (elim (Option-cases (lookup b.address m.statuses)) [
        | inl absent ↦ rw absent ok
        | inr (s, there) ↦ rw there (stop_check-IsConsistent m ok b.address s there)
      ])

start_missing-IsConsistent :
    (backends : List BackendConfig) (c : ServiceCheckConfig) (m : Manager)
    → IsConsistent m
    → IsConsistent (start_missing backends c m)
unfolding start_missing
start_missing-IsConsistent [] c m ok = ok
start_missing-IsConsistent (b ∷ backends) c m ok =
    start_missing-IsConsistent backends c _ (elim (Option-cases (lookup b.address m.statuses)) [
      | inl absent ↦ rw absent (start_backend_check-IsConsistent m ok b.address c absent)
      | inr (s, there) ↦ rw there ok
    ])

update_service-IsConsistent :
    (std : Std) (svc : ServiceConfig) (m : Manager)
    → IsConsistent m
    → IsConsistent (update_service std svc m)
unfolding update_service
update_service-IsConsistent std svc m ok = elim (Bool-cases (is_enabled svc.health_check)) [
  | inl on ↦
      rw (on, update_service)
        (start_missing-IsConsistent svc.backends (enabled_check std svc.health_check) _
          (IsConsistent-services m _ ok))
  | inr off ↦ elim (Bool-cases (was_enabled (lookup svc.name m.services))) [
    | inl was ↦
        rw (off, update_service)
          (rw was
            (IsConsistent-services _ _ (stop_service_backends-IsConsistent svc.backends m ok)))
    | inr not_yet ↦ rw (off, update_service) (rw not_yet (IsConsistent-services _ _ ok))
  ]
]

pub update_services-IsConsistent :
    (std : Std) (services : List ServiceConfig) (m : Manager)
    → IsConsistent m
    → IsConsistent (update_services std services m)
unfolding update_services
update_services-IsConsistent std [] m ok = ok
update_services-IsConsistent std (svc ∷ services) m ok =
    update_services-IsConsistent std services (update_service std svc m)
      (update_service-IsConsistent std svc m ok)

drop_backends-IsConsistent :
    (addresses : GoMap String Bool) (visited : GoMap String BackendStatus) (m : Manager)
    → IsConsistent m
    → HasDistinctKeys visited
    → ((a : String) (s : BackendStatus) → lookup a visited ≡ some s → lookup a m.statuses ≡ some s)
    → IsConsistent (drop_backends addresses visited m)
unfolding drop_backends lookup stop_check
drop_backends-IsConsistent addresses [] m ok distinct there = ok
drop_backends-IsConsistent addresses ((a, s) ∷ visited) m ok distinct there =
    let here = there a s (ground (arith, ==_iff {A = String} a a)) in
    elim (Option-cases (lookup a addresses)) [
      | inl gone ↦
          rw (gone, drop_backends)
            (drop_backends-IsConsistent addresses visited (stop_check a s m)
              (stop_check-IsConsistent m ok a s here) distinct.1
              (λ b t p. ground (
                arith,
                p,
                distinct.0,
                there b t,
                lookup-delete a b m.statuses,
                ==_iff {A = String} a b,
              )))
      | inr (x, kept) ↦
          rw (kept, drop_backends)
            (drop_backends-IsConsistent addresses visited m ok distinct.1
              (λ b t p. there b t (ground (arith, p, distinct.0, ==_iff {A = String} a b))))
    ]

-- UpdateTargets keeps the invariant, whatever the order of its loops over maps.
pub update_targets-IsConsistent :
    (std : Std) (o : RangeOrder) (services : List ServiceConfig) (m : Manager)
    → IsConsistent m
    → IsConsistent (update_targets std o services m)
unfolding update_targets
update_targets-IsConsistent std o services m ok =
    let m1 = update_services std services m in
    let ok1 = update_services-IsConsistent std services m ok in
    drop_backends-IsConsistent _ (o.arrange m1.statuses) _ (IsConsistent-services m1 _ ok1)
      (HasDistinctKeys-arrange o m1.statuses ok1.distinct)
      (λ a s p. ground (arith, p, lookup-arrange o m1.statuses ok1.distinct a))

-- A probe's result keeps it, whichever check it comes from.
pub handle_check_result-IsConsistent :
    (address : String) (failed : Bool) (c : ServiceCheckConfig) (m : Manager)
    → IsConsistent m
    → IsConsistent (handle_check_result address failed c m).0
unfolding handle_check_result check_failed check_succeeded
handle_check_result-IsConsistent address failed c m ok =
    elim (Option-cases (lookup address m.statuses)) [
      | inl absent ↦ rw (absent, handle_check_result) ok
      | inr (s, there) ↦
          let s' = if failed then check_failed c s else check_succeeded c s in
          let same : (s'.cancel ≡ s.cancel) × (s'.address ≡ s.address) = ground arith in
          rw (there, handle_check_result)
            (record {
              distinct = HasDistinctKeys-insert address s' m.statuses ok.distinct;
              owned = λ a. ground (
                arith,
                there,
                same,
                ok.owned a,
                lookup-insert address a s' m.statuses,
                ==_iff {A = String} address a,
              );
              held = λ id. elim (Option-cases (lookup id m.checks)) [
                | inl ended ↦ rw ended refl
                | inr (k, at) ↦ ground (
                  arith,
                  there,
                  same,
                  at,
                  ok.held id,
                  lookup-insert address k.address s' m.statuses,
                  ==_iff {A = String} address k.address,
                )
              ];
              fresh = ok.fresh;
            })
    ]
