-- ===== src/Snat/Linux.antt =====
-- pkg/snat/manager_linux.go: the rule manager over iptables. The library go-iptables is a parameter,
-- over the state `K` that the kernel keeps and the errors `F` that its calls return. A `range` over a
-- map goes in the order that `o` arranges. Errors of single rules are only logged, so Reconcile,
-- ReconcileForward and Cleanup return none.
pub mod Init
pub mod Loops
pub mod Orphans
pub mod Installed
pub mod Refines
pub mod Exact
pub mod Lost
pub mod Stats
mod Tests
use ezlb.Shared.{ℕ, String, Bool, true, false, Option, none, some, List, [], ◌∷◌, ◌++◌}
use ezlb.Shared.Decimal.{itoa}
use ezlb.Shared.Eq.{◌==◌, string_eq}
use ezlb.Shared.GoMap.{GoMap, lookup, insert, delete}
use ezlb.Shared.Index.{index_where}
use ezlb.Shared.Order.{RangeOrder}
use ezlb.Shared.Result.{Result, ok, err}
use ezlb.Shared.Tests.{if◌then◌else◌}
use ezlb.Snat.{SnatRule, ForwardRule, snat_rule_key, forward_rule_key, SnatManager}

-- The methods of iptables.IPTables that the manager calls; the first two arguments are the table and
-- the chain.
pub record Iptables (F K : Type 0) : Type 0 where
  pub chain_exists : String → String → K → Result F Bool
  pub new_chain : String → String → K → K × Option F
  pub clear_chain : String → String → K → K × Option F
  pub delete_chain : String → String → K → K × Option F
  pub exists : String → String → List String → K → Result F Bool
  pub append_unique : String → String → List String → K → K × Option F
  pub insert_at : String → String → ℕ → List String → K → K × Option F
  pub delete_if_exists : String → String → List String → K → K × Option F
  pub stats : String → String → K → Result F (List (List String))

abbrev pub nat_table : String
nat_table = "nat"

abbrev pub filter_table : String
filter_table = "filter"

abbrev pub snat_chain : String
snat_chain = "EZLB-SNAT"

abbrev pub forward_chain : String
forward_chain = "EZLB-FORWARD"

pub record LinuxManager (K : Type 0) : Type 0 where
  pub ipt : K
  pub managed : GoMap String SnatRule
  pub managed_forward : GoMap String ForwardRule

pub data InitError (F : Type 0) : Type 0 where
  check_chain add_jump check_jump : F → InitError F
  create_chain add_conntrack : String → F → InitError F

-- buildRuleSpec
unfoldable pub build_rule_spec : SnatRule → List String
build_rule_spec rule =
    let spec =
      "-d" ∷ rule.backend_ip ∷ "-p" ∷ rule.protocol ∷ "--dport" ∷ itoa rule.backend_port ∷ [] in
    if rule.snat_ip == ""
    then spec ++ ("-j" ∷ "MASQUERADE" ∷ [])
    else spec ++ ("-j" ∷ "SNAT" ∷ "--to-source" ∷ rule.snat_ip ∷ [])

-- buildForwardRuleSpec
unfoldable pub build_forward_rule_spec : ForwardRule → List String
build_forward_rule_spec rule =
    "-d"
    ∷ rule.backend_ip
    ∷ "-p"
    ∷ rule.protocol
    ∷ "--dport"
    ∷ itoa rule.backend_port
    ∷ "-j"
    ∷ "ACCEPT"
    ∷ []

-- One of the two halves of the manager while its reconciler runs: the kernel and the managed rules.
pub record Half (K R : Type 0) : Type 0 where
  pub kernel : K
  pub rules : GoMap String R

module _ {F K R : Type 0} where
  -- if err := delete(rule); err != nil { log } else { delete(managed, key) }
  unfoldable pub drop_rule : (R → K → K × Option F) → String → R → Half K R → Half K R
  drop_rule del key rule s =
      let (k, e) = del rule s.kernel in
      elim e [
        | some _ ↦ record s { kernel = k }
        | none ↦ record { kernel = k; rules = delete key s.rules }
      ]

  -- The loop that removes rules that are no longer desired, over the entries of `visited`.
  unfoldable pub drop_stale :
      (R → K → K × Option F) → GoMap String R → GoMap String R → Half K R → Half K R
  drop_stale del desired [] s = s
  drop_stale del desired ((key, rule) ∷ visited) s =
      drop_stale del desired visited
        (elim (lookup key desired) [ some _ ↦ s | none ↦ drop_rule del key rule s ])

  -- if err := add(rule); err != nil { log } else { managed[key] = rule }
  unfoldable pub install_rule : (R → K → K × Option F) → String → R → Half K R → Half K R
  install_rule add key rule s =
      let (k, e) = add rule s.kernel in
      elim e [
        | some _ ↦ record s { kernel = k }
        | none ↦ record { kernel = k; rules = insert key rule s.rules }
      ]

  -- The body of ReconcileForward's second loop.
  unfoldable pub add_absent : (R → K → K × Option F) → String → R → Half K R → Half K R
  add_absent add key rule s = elim (lookup key s.rules) [
    | some _ ↦ s
    | none ↦ install_rule add key rule s
  ]

-- A loop over the desired rules.
unfoldable pub visit_desired :
    {K R : Type 0} → (String → R → Half K R → Half K R) → GoMap String R → Half K R → Half K R
visit_desired body [] s = s
visit_desired body ((key, rule) ∷ desired) s = visit_desired body desired (body key rule s)

module _ {F K : Type 0} (ipt : Iptables F K) where
  unfoldable pub add_rule : SnatRule → K → K × Option F
  add_rule rule = ipt.append_unique nat_table snat_chain (build_rule_spec rule)

  unfoldable pub delete_rule : SnatRule → K → K × Option F
  delete_rule rule = ipt.delete_if_exists nat_table snat_chain (build_rule_spec rule)

  unfoldable pub add_forward_rule : ForwardRule → K → K × Option F
  add_forward_rule rule =
      ipt.append_unique filter_table forward_chain (build_forward_rule_spec rule)

  unfoldable pub delete_forward_rule : ForwardRule → K → K × Option F
  delete_forward_rule rule =
      ipt.delete_if_exists filter_table forward_chain (build_forward_rule_spec rule)

  -- The rest of the body of Reconcile's second loop, where a rule of another snat_ip is managed.
  unfoldable pub replace_rule : String → SnatRule → SnatRule → Half K SnatRule → Half K SnatRule
  replace_rule key existing rule s =
      let (k, e) = delete_rule existing s.kernel in
      elim e [
        | some _ ↦ record s { kernel = k }
        | none ↦ install_rule add_rule key rule (record s { kernel = k })
      ]

  -- The body of Reconcile's second loop.
  unfoldable pub update_rule : String → SnatRule → Half K SnatRule → Half K SnatRule
  update_rule key rule s = elim (lookup key s.rules) [
    | none ↦ install_rule add_rule key rule s
    | some existing ↦
        if existing.snat_ip == rule.snat_ip then s else replace_rule key existing rule s
  ]

  module _ (o : RangeOrder) where
    unfoldable pub reconcile_rules : List SnatRule → Half K SnatRule → Half K SnatRule
    reconcile_rules desired s =
        let desired_map = index_where (λ k. true) snat_rule_key desired [] in
        visit_desired update_rule (o.arrange desired_map)
          (drop_stale delete_rule desired_map (o.arrange s.rules) s)

    unfoldable pub reconcile_forward_rules :
        List ForwardRule → Half K ForwardRule → Half K ForwardRule
    reconcile_forward_rules desired s =
        let desired_map = index_where (λ k. true) forward_rule_key desired [] in
        visit_desired (add_absent add_forward_rule) (o.arrange desired_map)
          (drop_stale delete_forward_rule desired_map (o.arrange s.rules) s)

    -- Reconcile
    unfoldable pub reconcile : List SnatRule → LinuxManager K → LinuxManager K
    reconcile desired m =
        let s = reconcile_rules desired (record { kernel = m.ipt; rules = m.managed }) in
        record m { ipt = s.kernel; managed = s.rules }

    -- ReconcileForward
    unfoldable pub reconcile_forward : List ForwardRule → LinuxManager K → LinuxManager K
    reconcile_forward desired m =
        let s =
          reconcile_forward_rules desired (record { kernel = m.ipt; rules = m.managed_forward }) in
        record m { ipt = s.kernel; managed_forward = s.rules }

  -- Cleanup: six calls whose errors are only logged.
  unfoldable pub cleanup : LinuxManager K → LinuxManager K
  cleanup m =
      let k1 = (ipt.clear_chain nat_table snat_chain m.ipt).0 in
      let k2 = (ipt.delete_if_exists nat_table "POSTROUTING" ("-j" ∷ snat_chain ∷ []) k1).0 in
      let k3 = (ipt.delete_chain nat_table snat_chain k2).0 in
      let k4 = (ipt.clear_chain filter_table forward_chain k3).0 in
      let k5 = (ipt.delete_if_exists filter_table "FORWARD" ("-j" ∷ forward_chain ∷ []) k4).0 in
      let k6 = (ipt.delete_chain filter_table forward_chain k5).0 in
      record { ipt = k6; managed = []; managed_forward = [] }

  -- linuxManager as a snat.Manager.
  abbrev pub linux_manager : RangeOrder → SnatManager F (LinuxManager K)
  linux_manager o = record {
    reconcile = λ desired m. (reconcile o desired m, none);
    reconcile_forward = λ desired m. (reconcile_forward o desired m, none);
    cleanup = λ m. (cleanup m, none);
  }
