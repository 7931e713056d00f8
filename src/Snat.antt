-- ===== src/Snat.antt =====
-- pkg/snat/snat.go: the SNAT and FORWARD rules, their keys, and the interface of their manager.
pub mod Fake
pub mod Linux
use Prim.Native.String.{◌++◌}
use ezlb.Shared.{ℕ, String, Option, List}
use ezlb.Shared.Decimal.{itoa}

pub record SnatRule : Type 0 where
  pub backend_ip : String
  pub protocol : String
  pub snat_ip : String
  pub backend_port : ℕ  -- uint16

pub record ForwardRule : Type 0 where
  pub backend_ip : String
  pub protocol : String
  pub backend_port : ℕ  -- uint16

-- SNATRule.Key
unfoldable pub snat_rule_key : SnatRule → String
snat_rule_key r = r.backend_ip ++ ":" ++ itoa r.backend_port ++ "/" ++ r.protocol

-- ForwardRule.Key
unfoldable pub forward_rule_key : ForwardRule → String
forward_rule_key r = r.backend_ip ++ ":" ++ itoa r.backend_port ++ "/" ++ r.protocol

-- The interface snat.Manager, over the state `N` and the errors `F` of its implementation.
pub record SnatManager (F N : Type 0) : Type 0 where
  pub reconcile : List SnatRule → N → N × Option F
  pub reconcile_forward : List ForwardRule → N → N × Option F
  pub cleanup : N → N × Option F
