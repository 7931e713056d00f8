-- ===== src/Lvs/Manager.antt =====
-- pkg/lvs/manager.go: the Manager passes each operation to its handle and wraps the error. The
-- log lines are not modelled.
use ezlb.Shared.{ℕ, Option, List}
use ezlb.Shared.Result.{Result, map_err}
use ezlb.Lvs.Types.{Service, Destination}
use ezlb.Lvs.Handle.{IpvsHandle}
use mathlib.Core.Option

-- The message names the service (address and port) and, where there is one, the destination.
pub data ManagerError (IP E : Type 0) : Type 0 where
  get_services_failed flush_failed : E → ManagerError IP E
  get_destinations_failed create_service_failed update_service_failed delete_service_failed :
      IP → ℕ → E → ManagerError IP E
  create_destination_failed update_destination_failed delete_destination_failed :
      IP → ℕ → IP → ℕ → E → ManagerError IP E

-- if err := op(); err != nil { return wrap(err) }
abbrev pub wrap : {E D S : Type 0} → (E → D) → S × Option E → S × Option D
wrap f (s, e) = (s, Option.map f e)

module _ {IP E S : Type 0} (h : IpvsHandle IP E S) where
  unfoldable pub get_services : S → Result (ManagerError IP E) (List (Service IP))
  get_services s = map_err get_services_failed (h.get_services s)

  unfoldable pub get_destinations :
      Service IP → S → Result (ManagerError IP E) (List (Destination IP))
  get_destinations svc s =
      map_err (get_destinations_failed svc.address svc.port) (h.get_destinations svc s)

  unfoldable pub create_service : Service IP → S → S × Option (ManagerError IP E)
  create_service svc s = wrap (create_service_failed svc.address svc.port) (h.new_service svc s)

  unfoldable pub update_service : Service IP → S → S × Option (ManagerError IP E)
  update_service svc s = wrap (update_service_failed svc.address svc.port) (h.update_service svc s)

  unfoldable pub delete_service : Service IP → S → S × Option (ManagerError IP E)
  delete_service svc s = wrap (delete_service_failed svc.address svc.port) (h.del_service svc s)

  unfoldable pub create_destination :
      Service IP → Destination IP → S → S × Option (ManagerError IP E)
  create_destination svc dst s =
      wrap (create_destination_failed dst.address dst.port svc.address svc.port)
        (h.new_destination svc dst s)

  unfoldable pub update_destination :
      Service IP → Destination IP → S → S × Option (ManagerError IP E)
  update_destination svc dst s =
      wrap (update_destination_failed dst.address dst.port svc.address svc.port)
        (h.update_destination svc dst s)

  unfoldable pub delete_destination :
      Service IP → Destination IP → S → S × Option (ManagerError IP E)
  delete_destination svc dst s =
      wrap (delete_destination_failed dst.address dst.port svc.address svc.port)
        (h.del_destination svc dst s)

  unfoldable pub flush : S → S × Option (ManagerError IP E)
  flush s = wrap flush_failed (h.flush s)

  unfoldable pub close : S → S
  close = h.close
