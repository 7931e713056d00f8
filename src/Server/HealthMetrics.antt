-- ===== src/Server/HealthMetrics.antt =====
-- Which health metrics updateHealthMetrics sets.
use ezlb.Shared.{
  ◌≡◌, refl, ◌∙◌, ap, String, Bool, false, ◌||◌, Option, none, some, List, [], ◌∷◌, arith,
}
use ezlb.Shared.Eq.{◌==◌, string_eq, ==_iff}
use ezlb.Shared.GoMap.{GoMap, lookup, insert, lookup-insert}
use ezlb.Shared.Tests.{if◌then◌else◌}
use ezlb.Config.{ServiceConfig, BackendConfig}
use ezlb.Std.{Std}
use ezlb.Healthcheck.{get_all_statuses}
use ezlb.Lvs.Handle.{IpvsHandle}
use ezlb.Shared.Order.{RangeOrder}
use ezlb.Snat.{SnatManager}
use ezlb.Server.{
  Server, Metrics, add_backends, backend_to_service, name_or_unknown, set_health,
  update_health_metrics,
}

-- The backend's address is among those of the list.
abbrev pub has_address : String → List BackendConfig → Bool
has_address address [] = false
has_address address (backend ∷ backends) =
    backend.address == address || has_address address backends

-- The name of the last service that has the address, or the given default.
abbrev pub last_owner : String → List ServiceConfig → Option String → Option String
last_owner address [] name = name
last_owner address (svc ∷ services) name =
    last_owner address services (if has_address address svc.backends then some svc.name else name)

lookup-add_backends :
    (address name : String) (backends : List BackendConfig) (m : GoMap String String)
    → lookup address (add_backends name backends m)
      ≡ (if has_address address backends then some name else lookup address m)
unfolding add_backends
lookup-add_backends address name [] m = refl
lookup-add_backends address name (b ∷ bs) m =
    lookup-add_backends address name bs (insert b.address name m)
    ∙ ground (arith, lookup-insert b.address address name m, ==_iff {A = String} b.address address)

lookup-backend_to_service :
    (address : String) (services : List ServiceConfig) (m : GoMap String String)
    → lookup address (backend_to_service services m)
      ≡ last_owner address services (lookup address m)
unfolding backend_to_service
lookup-backend_to_service address [] m = refl
lookup-backend_to_service address (svc ∷ services) m =
    lookup-backend_to_service address services (add_backends svc.name svc.backends m)
    ∙ ap (last_owner address services) (lookup-add_backends address svc.name svc.backends m)

-- The name that a gauge carries: that of the owner, and "unknown" without one or where it is empty.
abbrev pub gauge_name : Option String → String
gauge_name none = "unknown"
gauge_name (some name) = if name == "" then "unknown" else name

name_or_unknown_lem : (owner : Option String) → name_or_unknown owner ≡ gauge_name owner
name_or_unknown_lem none = refl
name_or_unknown_lem (some name) = refl

-- The calls of SetBackendHealth for the statuses: each under the last service that has the address,
-- or "unknown" without one or where its name is empty.
abbrev pub health_calls : List ServiceConfig → GoMap String Bool → List (String × String × Bool)
health_calls services [] = []
health_calls services ((address, healthy) ∷ statuses) =
    (gauge_name (last_owner address services none), address, healthy)
    ∷ health_calls services statuses

abbrev pub call_each : {M : Type 0} → Metrics M → List (String × String × Bool) → M → M
call_each mx [] metrics = metrics
call_each mx ((service, backend, healthy) ∷ calls) metrics =
    call_each mx calls (mx.set_backend_health service backend healthy metrics)

set_health-call_each :
    {M : Type 0} (mx : Metrics M) (services : List ServiceConfig) (statuses : GoMap String Bool)
    (metrics : M)
    → set_health mx (backend_to_service services []) statuses metrics
      ≡ call_each mx (health_calls services statuses) metrics
unfolding set_health lookup
set_health-call_each mx services [] metrics = refl
set_health-call_each mx services ((address, healthy) ∷ statuses) metrics =
    rw (lookup-backend_to_service address services []) (
      rw (name_or_unknown_lem (last_owner address services none)) (
        set_health-call_each mx services statuses (
          mx.set_backend_health (gauge_name (last_owner address services none)) address healthy
            metrics)))

module _ (std : Std) {E F V S N M : Type 0} (handle : IpvsHandle std.IP E S) (sm : SnatManager F N)
    (mx : Metrics M) (o : RangeOrder) where
  -- updateHealthMetrics sets one gauge for each tracked address, in the order of `range`: its health,
  -- under the name of the last service of the current configuration that has the address, and under
  -- "unknown" without one or where that name is empty.
  pub update_health_metrics-call_each :
      (s : Server V S N M)
      → (update_health_metrics std handle sm mx o s).metrics
        ≡ call_each mx
            (health_calls s.config_mgr.current.services
              (o.arrange (get_all_statuses s.health_mgr.statuses)))
            s.metrics
  unfolding update_health_metrics
  update_health_metrics-call_each s =
      set_health-call_each mx s.config_mgr.current.services
        (o.arrange (get_all_statuses s.health_mgr.statuses)) s.metrics
