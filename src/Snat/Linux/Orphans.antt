-- ===== src/Snat/Linux/Orphans.antt =====
-- Reconcile and ReconcileForward over iptables leave no rule behind that the manager has forgotten,
-- whichever of their calls fail.
use Prim.Native.String.{◌++◌}
use ezlb.Shared.{
  ◌≡◌, refl, ◌∙◌, inl, inr, String, Bool, true, not, ◌&&◌, ◌||◌, some, List, [], ◌∷◌, arith,
}
use ezlb.Shared.Eq.{◌==◌, string_eq, list_eq, ==_iff}
use ezlb.Shared.GoMap.{lookup}
use ezlb.Shared.Index.{index_where, index_where-HasDistinctKeys, index_where-IsKeyed}
use ezlb.Shared.Order.{RangeOrder, lookup-arrange, HasDistinctKeys-arrange}
use ezlb.Shared.Tests.{is_some, Option-cases, Bool-cases}
use ezlb.Snat.{SnatRule, ForwardRule, snat_rule_key, forward_rule_key}
use ezlb.Snat.Linux.{
  Iptables, LinuxManager, Half, nat_table, filter_table, snat_chain, forward_chain, build_rule_spec,
  build_forward_rule_spec, add_rule, delete_rule, add_forward_rule, delete_forward_rule,
  replace_rule, update_rule, reconcile_rules, reconcile_forward_rules, reconcile, reconcile_forward,
}
use ezlb.Snat.Linux.Loops.{
  Chain, IsTracked, install_rule-IsTracked, absent_clear, add_absent-IsTracked, drop_rule-IsTracked,
  drop_stale_keeps, visit_desired_keeps,
}

-- What go-iptables documents of AppendUnique and DeleteIfExists, for one chain.
pub record IsLawful {F K : Type 0} (ipt : Iptables F K) (table chain : String)
    (has : List String → K → Bool) : Type 0 where
  pub append :
      (spec x : List String) (k : K)
      → let r = ipt.append_unique table chain spec k in
        has x r.0 ≡ (not (is_some r.1) && spec == x || has x k)
  pub delete :
      (spec x : List String) (k : K)
      → let r = ipt.delete_if_exists table chain spec k in
        has x r.0 ≡ (not (not (is_some r.1) && spec == x) && has x k)

-- The key of the rule that a specification was built from.
abbrev pub key_of : List String → String
key_of (d ∷ ip ∷ p ∷ protocol ∷ dport ∷ port ∷ rest) = ip ++ ":" ++ port ++ "/" ++ protocol
key_of x = ""

pub key_of-build_rule_spec : (r : SnatRule) → key_of (build_rule_spec r) ≡ snat_rule_key r
unfolding build_rule_spec snat_rule_key
key_of-build_rule_spec r = elim (Bool-cases (r.snat_ip == "")) [
  | inl masquerade ↦ rw masquerade refl
  | inr snat ↦ rw snat refl
]

pub key_of-build_forward_rule_spec :
    (r : ForwardRule) → key_of (build_forward_rule_spec r) ≡ forward_rule_key r
unfolding build_forward_rule_spec forward_rule_key
key_of-build_forward_rule_spec r = refl

module _ {F K : Type 0} (ipt : Iptables F K) (has : List String → K → Bool) where
  module _ (lawful : IsLawful ipt nat_table snat_chain has) where
    abbrev pub snat_rules : Chain F K SnatRule
    unfolding add_rule delete_rule
    snat_rules = record {
      spec = build_rule_spec;
      key_of = key_of;
      add = add_rule ipt;
      del = delete_rule ipt;
      has = has;
      has-add = λ r x k. lawful.append (build_rule_spec r) x k;
      has-del = λ r x k. lawful.delete (build_rule_spec r) x k;
    }

  module _ (lawful : IsLawful ipt filter_table forward_chain has) where
    abbrev pub forward_rules : Chain F K ForwardRule
    unfolding add_forward_rule delete_forward_rule
    forward_rules = record {
      spec = build_forward_rule_spec;
      key_of = key_of;
      add = add_forward_rule ipt;
      del = delete_forward_rule ipt;
      has = has;
      has-add = λ r x k. lawful.append (build_forward_rule_spec r) x k;
      has-del = λ r x k. lawful.delete (build_forward_rule_spec r) x k;
    }

  module _ (known : List String → Bool) (lawful : IsLawful ipt nat_table snat_chain has) where
    replace_rule-IsTracked :
        (key : String) (existing rule : SnatRule) (s : Half K SnatRule)
        → IsTracked (snat_rules lawful) known s
        → key_of (build_rule_spec rule) ≡ key
        → lookup key s.rules ≡ some existing
        → IsTracked (snat_rules lawful) known (replace_rule ipt key existing rule s)
    unfolding replace_rule add_rule delete_rule
    replace_rule-IsTracked key existing rule s ok own there =
        elim (Option-cases (delete_rule ipt existing s.kernel).1) [
          | inl done ↦
              let s' : Half K SnatRule = record s {
                kernel = (delete_rule ipt existing s.kernel).0;
              } in
              let ok' : IsTracked (snat_rules lawful) known s' = record {
                distinct = ok.distinct;
                keyed = ok.keyed;
                tracked = λ x new at.
                    ground
                      (arith, lawful.delete (build_rule_spec existing) x s.kernel, ok.tracked x);
              } in
              rw (done, replace_rule)
                (install_rule-IsTracked (snat_rules lawful) known key rule s' ok' own (λ x new at.
                  ground (
                    arith,
                    done,
                    there,
                    lawful.delete (build_rule_spec existing) x s.kernel,
                    ok.tracked x,
                    ==_iff {A = String} key (key_of x),
                  )))
          | inr (e, failed) ↦
              rw (failed, replace_rule)
                (record {
                  distinct = ok.distinct;
                  keyed = ok.keyed;
                  tracked = λ x new at.
                      ground
                        (arith, lawful.delete (build_rule_spec existing) x s.kernel, ok.tracked x);
                })
        ]

    update_rule-IsTracked :
        (key : String) (rule : SnatRule) (s : Half K SnatRule)
        → IsTracked (snat_rules lawful) known s
        → key_of (build_rule_spec rule) ≡ key
        → IsTracked (snat_rules lawful) known (update_rule ipt key rule s)
    unfolding update_rule add_rule delete_rule
    update_rule-IsTracked key rule s ok own = elim (Option-cases (lookup key s.rules)) [
      | inl absent ↦
          rw (absent, update_rule)
            (install_rule-IsTracked (snat_rules lawful) known key rule s ok own
              (absent_clear (snat_rules lawful) known key s ok absent))
      | inr (existing, there) ↦ elim (Bool-cases (existing.snat_ip == rule.snat_ip)) [
        | inl same ↦ rw (there, update_rule) (rw same ok)
        | inr other ↦
            rw (there, update_rule)
              (rw other (replace_rule-IsTracked key existing rule s ok own there))
      ]
    ]

    -- Where go-iptables keeps its documentation, Reconcile preserves, whichever of its calls fail,
    -- that each rule of the SNAT chain, apart from the `known` ones that were there before, is the
    -- managed rule of its key: no rule is left that nothing will remove.
    pub reconcile-IsTracked :
        (o : RangeOrder) (desired : List SnatRule) (m : LinuxManager K)
        → IsTracked (snat_rules lawful) known (record { kernel = m.ipt; rules = m.managed })
        → let m' = reconcile ipt o desired m in
          IsTracked (snat_rules lawful) known (record { kernel = m'.ipt; rules = m'.managed })
    unfolding reconcile reconcile_rules add_rule delete_rule lookup
    reconcile-IsTracked o desired m ok =
        let wanted = index_where (λ k. true) snat_rule_key desired [] in
        let wanted-HasDistinctKeys =
          index_where-HasDistinctKeys (λ k. true) snat_rule_key desired [] tt in
        let wanted-IsKeyed =
          index_where-IsKeyed (λ k. true) snat_rule_key desired [] (λ j v p. absurd (cc)) in
        visit_desired_keeps (snat_rules lawful) (IsTracked (snat_rules lawful) known)
          (update_rule ipt) update_rule-IsTracked (o.arrange wanted) _
          (drop_stale_keeps (snat_rules lawful) (IsTracked (snat_rules lawful) known)
            (drop_rule-IsTracked (snat_rules lawful) known) wanted (o.arrange m.managed) _ ok
            (HasDistinctKeys-arrange o m.managed ok.distinct)
            (λ j r p. ground (arith, p, lookup-arrange o m.managed ok.distinct j)))
          (HasDistinctKeys-arrange o wanted wanted-HasDistinctKeys)
          (λ j r p.
            key_of-build_rule_spec r
            ∙ wanted-IsKeyed j r
                (ground (arith, p, lookup-arrange o wanted wanted-HasDistinctKeys j)))

  module _ (known : List String → Bool) (lawful : IsLawful ipt filter_table forward_chain has) where
    -- ReconcileForward preserves the same of the FORWARD chain, whichever of its calls fail.
    pub reconcile_forward-IsTracked :
        (o : RangeOrder) (desired : List ForwardRule) (m : LinuxManager K)
        → IsTracked
            (forward_rules lawful)
            known
            (record { kernel = m.ipt; rules = m.managed_forward })
        → let m' = reconcile_forward ipt o desired m in
          IsTracked
            (forward_rules lawful)
            known
            (record { kernel = m'.ipt; rules = m'.managed_forward })
    unfolding reconcile_forward reconcile_forward_rules add_forward_rule delete_forward_rule lookup
    reconcile_forward-IsTracked o desired m ok =
        let wanted = index_where (λ k. true) forward_rule_key desired [] in
        let wanted-HasDistinctKeys =
          index_where-HasDistinctKeys (λ k. true) forward_rule_key desired [] tt in
        let wanted-IsKeyed =
          index_where-IsKeyed (λ k. true) forward_rule_key desired [] (λ j v p. absurd (cc)) in
        visit_desired_keeps (forward_rules lawful) (IsTracked (forward_rules lawful) known) _
          (add_absent-IsTracked (forward_rules lawful) known) (o.arrange wanted) _
          (drop_stale_keeps (forward_rules lawful) (IsTracked (forward_rules lawful) known)
            (drop_rule-IsTracked (forward_rules lawful) known) wanted (o.arrange m.managed_forward)
            _ ok (HasDistinctKeys-arrange o m.managed_forward ok.distinct)
            (λ j r p. ground (arith, p, lookup-arrange o m.managed_forward ok.distinct j)))
          (HasDistinctKeys-arrange o wanted wanted-HasDistinctKeys)
          (λ j r p.
            key_of-build_forward_rule_spec r
            ∙ wanted-IsKeyed j r
                (ground (arith, p, lookup-arrange o wanted wanted-HasDistinctKeys j)))
