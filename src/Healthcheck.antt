-- ===== src/Healthcheck.antt =====
-- pkg/healthcheck/manager.go: the health check manager. The goroutine of runCheck is an entry of
-- `checks`, whose number stands for its context; cancelling it clears `live`. A probe's answer is an
-- input, and it may also come late, from a check that has been cancelled meanwhile. The mutex makes
-- each call one step. Counters are numbers without overflow. Logging is left out, and so is the end
-- of the context that Run passes.
pub mod Update
pub mod Thresholds
pub mod Consistent
pub mod Targets
pub mod Reachable
mod Tests
use Prim.Native.Nat.{suc}
use ezlb.Shared.{ℕ, String, Bool, true, false, not, ◌&&◌, Option, none, some, List, [], ◌∷◌}
use ezlb.Shared.Eq.{◌==◌, nat_eq, string_eq}
use ezlb.Shared.GoMap.{GoMap, lookup, insert, delete}
use ezlb.Shared.Int.{ℤ, pos, negsuc}
use ezlb.Shared.Order.{RangeOrder}
use ezlb.Shared.Tests.{if◌then◌else◌, leb}
use ezlb.Std.{Std}
use ezlb.Config.{ServiceConfig, BackendConfig, HealthCheckConfig}
use ezlb.Config.HealthCheck.{
  is_enabled, get_interval, get_timeout, get_type, get_http_path, get_http_expected_status,
  get_fail_count, get_rise_count,
}

-- TCPChecker and HTTPChecker; what a probe answers is an input of the model.
pub data Checker : Type 0 where
  tcp_checker : ℤ → Checker
  http_checker : ℤ → String → ℤ → Checker

pub record ServiceCheckConfig : Type 0 where
  pub checker : Option Checker
  pub interval : ℤ
  pub fail_count : ℤ
  pub rise_count : ℤ
  pub enabled : Bool

pub record BackendStatus : Type 0 where
  pub cancel : ℕ
  pub address : String
  pub consecutive_fails : ℕ
  pub consecutive_ok : ℕ
  pub healthy : Bool

-- A goroutine of runCheck.
pub record Check : Type 0 where
  pub address : String
  pub svc_check : ServiceCheckConfig
  pub live : Bool

pub record Manager : Type 0 where
  pub services : GoMap String ServiceCheckConfig
  pub statuses : GoMap String BackendStatus
  pub checks : GoMap ℕ Check
  pub next : ℕ

-- NewManager
unfoldable pub new_manager : Manager
new_manager = record { services = []; statuses = []; checks = []; next = 0 }

abbrev pub health_of : Option BackendStatus → Bool
health_of none = true
health_of (some status) = status.healthy

unfoldable pub is_healthy : String → Manager → Bool
is_healthy address m = health_of (lookup address m.statuses)

-- consecutive >= count
abbrev pub at_least : ℕ → ℤ → Bool
at_least n (pos count) = leb count n
at_least n (negsuc count) = true

-- The two branches of handleCheckResult.
unfoldable pub check_failed : ServiceCheckConfig → BackendStatus → BackendStatus
check_failed svc_check s =
    let s' = record s { consecutive_fails = suc s.consecutive_fails; consecutive_ok = 0 } in
    if s.healthy && at_least s'.consecutive_fails svc_check.fail_count
    then record s' { healthy = false }
    else s'

unfoldable pub check_succeeded : ServiceCheckConfig → BackendStatus → BackendStatus
check_succeeded svc_check s =
    let s' = record s { consecutive_ok = suc s.consecutive_ok; consecutive_fails = 0 } in
    if not s.healthy && at_least s'.consecutive_ok svc_check.rise_count
    then record s' { healthy = true }
    else s'

abbrev pub bool_neq : Bool → Bool → Bool
bool_neq true b = not b
bool_neq false b = b

-- handleCheckResult for a probe that `failed` or not; the second component says whether onChange is
-- called.
unfoldable pub handle_check_result : String → Bool → ServiceCheckConfig → Manager → Manager × Bool
handle_check_result address failed svc_check m = elim (lookup address m.statuses) [
  | none ↦ (m, false)
  | some s ↦
      let s' = if failed then check_failed svc_check s else check_succeeded svc_check s in
      (record m { statuses = insert address s' m.statuses }, bool_neq s.healthy s'.healthy)
]

-- status.cancel()
unfoldable pub cancel_check : ℕ → GoMap ℕ Check → GoMap ℕ Check
cancel_check id checks = elim (lookup id checks) [
  | none ↦ checks
  | some c ↦ insert id (record c { live = false }) checks
]

-- status.cancel(); delete(m.statuses, address)
unfoldable pub stop_check : String → BackendStatus → Manager → Manager
stop_check address status m = record m {
  statuses = delete address m.statuses;
  checks = cancel_check status.cancel m.checks;
}

-- stopServiceBackendsLocked
unfoldable pub stop_service_backends : List BackendConfig → Manager → Manager
stop_service_backends [] m = m
stop_service_backends (backend ∷ backends) m =
    stop_service_backends backends (elim (lookup backend.address m.statuses) [
      | none ↦ m
      | some status ↦ stop_check backend.address status m
    ])

-- startBackendCheckLocked
unfoldable pub start_backend_check : String → ServiceCheckConfig → Manager → Manager
start_backend_check address svc_check m = record m {
  statuses =
      insert address
        (record {
          cancel = m.next;
          address = address;
          consecutive_fails = 0;
          consecutive_ok = 0;
          healthy = true;
        })
        m.statuses;
  checks =
      insert m.next (record { address = address; svc_check = svc_check; live = true }) m.checks;
  next = suc m.next;
}

-- GetAllStatuses
unfoldable pub get_all_statuses : GoMap String BackendStatus → GoMap String Bool
get_all_statuses [] = []
get_all_statuses ((address, status) ∷ statuses) =
    (address, status.healthy) ∷ get_all_statuses statuses

-- The loop of Stop that cancels every check.
unfoldable pub cancel_all : GoMap String BackendStatus → GoMap ℕ Check → GoMap ℕ Check
cancel_all [] checks = checks
cancel_all ((address, status) ∷ statuses) checks =
    cancel_all statuses (cancel_check status.cancel checks)

unfoldable pub stop : RangeOrder → Manager → Manager
stop o m = record m {
  services = [];
  statuses = [];
  checks = cancel_all (o.arrange m.statuses) m.checks;
}
