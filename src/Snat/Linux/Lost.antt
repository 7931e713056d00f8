-- ===== src/Snat/Linux/Lost.antt =====
-- Where Reconcile over iptables deletes a rule to replace it and cannot add the new one, the manager
-- goes on listing the rule that it has deleted.
use ezlb.Shared.{◌≡◌, String, Bool, false, none, some, List, arith}
use ezlb.Shared.Eq.{◌==◌, string_eq, list_eq, ==_iff}
use ezlb.Shared.GoMap.{lookup}
use ezlb.Snat.{SnatRule}
use ezlb.Snat.Linux.{
  Iptables, Half, nat_table, snat_chain, build_rule_spec, add_rule, delete_rule, install_rule,
  replace_rule, update_rule,
}
use ezlb.Snat.Linux.Orphans.{IsLawful}

module _ {F K : Type 0} (ipt : Iptables F K) (has : List String → K → Bool)
    (lawful : IsLawful ipt nat_table snat_chain has) where
  -- Where the SNAT address of a managed rule has changed, its deletion succeeds and the addition of
  -- its replacement, which the chain did not hold, fails, the rule is still managed although the
  -- chain holds neither it nor the replacement; and a later run that wants the old rule again does nothing.
  pub update_rule-lost :
      (key : String) (existing rule : SnatRule) (e : F) (s : Half K SnatRule)
      → lookup key s.rules ≡ some existing
      → (existing.snat_ip == rule.snat_ip) ≡ false
      → (delete_rule ipt existing s.kernel).1 ≡ none
      → (add_rule ipt rule (delete_rule ipt existing s.kernel).0).1 ≡ some e
      → has (build_rule_spec rule) s.kernel ≡ false
      → let s' = update_rule ipt key rule s in
        (s'.rules ≡ s.rules)
        × (has (build_rule_spec existing) s'.kernel ≡ false)
        × (has (build_rule_spec rule) s'.kernel ≡ false)
        × (update_rule ipt key existing s' ≡ s')
  unfolding update_rule replace_rule install_rule add_rule delete_rule
  update_rule-lost key existing rule e s there other deleted failed before =
      let gone = lawful.delete (build_rule_spec existing) (build_rule_spec existing) s.kernel in
      let gone' = lawful.delete (build_rule_spec existing) (build_rule_spec rule) s.kernel in
      let k = (delete_rule ipt existing s.kernel).0 in
      let kept = lawful.append (build_rule_spec rule) (build_rule_spec existing) k in
      let kept' = lawful.append (build_rule_spec rule) (build_rule_spec rule) k in
      let reflexive =
        ==_iff {A = List String} (build_rule_spec existing) (build_rule_spec existing) in
      (
        ground (arith),
        ground (arith, gone, kept, reflexive),
        ground (arith, gone', kept', before),
        ground (arith, ==_iff {A = String} existing.snat_ip existing.snat_ip),
      )
