-- ===== src/Lvs/Reconciler.antt =====
-- pkg/lvs/reconciler.go: the types of the reconciler. The children model Reconcile and Cleanup, over
-- any handle, SNAT manager and health checker. The mutex makes each call one step. IsHealthy is
-- asked of one state of the checker throughout a call. A `range` over a map goes in the order that
-- `order` arranges.
pub mod Build
pub mod Destinations
pub mod Services
pub mod Run
pub mod Fake
pub mod Converge
pub mod Desired
pub mod Reconcile
pub mod Again
pub mod Cleanup
pub mod Healthy
pub mod Validated
pub mod Sample
mod Tests
pub mod SnatStep
pub mod SnatRules
mod SnatTests
use ezlb.Shared.{String, Bool, false, Option, none, some, List}
use ezlb.Shared.GoMap.{GoMap, lookup}
use ezlb.Shared.Order.{RangeOrder}
use ezlb.Std.{Std}
use ezlb.Config.{ServiceConfig}
use ezlb.Snat.{SnatManager}
use ezlb.Lvs.Types.{ServiceKey, DestinationKey, Service, Destination, ConvertError, service_key_eq}
use ezlb.Lvs.Handle.{IpvsHandle}
use ezlb.Lvs.Manager.{ManagerError}

pub record DesiredService (IP : Type 0) : Type 0 where
  pub service : Service IP
  pub destinations : List (Destination IP)
  pub config : ServiceConfig

pub data DestinationError (IP E : Type 0) : Type 0 where
  create_destination update_destination delete_destination :
      DestinationKey → ManagerError IP E → DestinationError IP E

pub data SnatError (F : Type 0) : Type 0 where
  invalid_address invalid_port : String → String → SnatError F
  snat_rules forward_rules : F → SnatError F

-- What Reconcile and Cleanup collect and join.
pub data ReconcileError (IP E F : Type 0) : Type 0 where
  create_service update_service delete_service :
      ServiceKey → ManagerError IP E → ReconcileError IP E F
  get_destinations : ManagerError IP E → ReconcileError IP E F
  destinations : List (DestinationError IP E) → ReconcileError IP E F
  snat_reconcile : SnatError F → ReconcileError IP E F

-- What Reconcile returns: the early errors, or the joined ones.
pub data Failure (IP E F : Type 0) : Type 0 where
  build_service : String → ConvertError → Failure IP E F
  build_backend : String → String → ConvertError → Failure IP E F
  current_services : ManagerError IP E → Failure IP E F
  joined : List (ReconcileError IP E F) → Failure IP E F

-- The state behind a Reconciler: the kernel's, the SNAT manager's, and its own `managed` map.
pub record World (S N : Type 0) : Type 0 where
  pub kernel : S
  pub snat : N
  pub managed : GoMap ServiceKey Bool

-- m[k] of a map[K]bool: false where there is no entry
abbrev pub flag : Option Bool → Bool
flag none = false
flag (some b) = b

unfoldable pub is_managed : ServiceKey → GoMap ServiceKey Bool → Bool
is_managed key managed = flag (lookup key managed)

-- What Reconciler holds: lvs.Manager's handle, HealthChecker, snat.Manager; and the order of `range`.
pub record Env (std : Std) (E F S N : Type 0) : Type 1 where
  pub handle : IpvsHandle std.IP E S
  pub is_healthy : String → Bool
  pub snat_mgr : SnatManager F N
  pub order : RangeOrder
