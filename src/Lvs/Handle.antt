-- ===== src/Lvs/Handle.antt =====
-- pkg/lvs/ipvs_handle.go: the interface IPVSHandle, over the state `S` that its implementation keeps
-- and the errors `E` that it returns.
pub mod Fake
pub mod Effects
pub mod Laws
pub mod Runs
pub mod Linux
use ezlb.Shared.{Option, List}
use ezlb.Shared.Result.{Result}
use ezlb.Lvs.Types.{Service, Destination}

pub record IpvsHandle (IP E S : Type 0) : Type 0 where
  pub new_service : Service IP → S → S × Option E
  pub update_service : Service IP → S → S × Option E
  pub del_service : Service IP → S → S × Option E
  pub get_services : S → Result E (List (Service IP))
  pub new_destination : Service IP → Destination IP → S → S × Option E
  pub update_destination : Service IP → Destination IP → S → S × Option E
  pub del_destination : Service IP → Destination IP → S → S × Option E
  pub get_destinations : Service IP → S → Result E (List (Destination IP))
  pub flush : S → S × Option E
  pub close : S → S
