-- ===== src/Snat/Linux/Exact.antt =====
-- Where no call of go-iptables fails, Reconcile leaves in the SNAT chain the rules that are desired.
use ezlb.Shared.{◌≡◌, ◌∙◌, sym, ap, inl, inr, String, Bool, true, false, some, List, [], arith}
use ezlb.Shared.Eq.{◌==◌, string_eq, list_eq, ==_iff}
use ezlb.Shared.GoMap.{lookup, HasDistinctKeys}
use ezlb.Shared.Index.{index_where, index_where-HasDistinctKeys, index_where-IsKeyed}
use ezlb.Shared.Order.{RangeOrder, lookup-arrange, HasDistinctKeys-arrange}
use ezlb.Shared.Tests.{Option-cases, Bool-cases}
use ezlb.Snat.{SnatRule, snat_rule_key}
use ezlb.Snat.Fake.Reconcile.{desired_rules, rule_after, reconcile-rule_after}
use ezlb.Snat.Linux.{
  Iptables, LinuxManager, Half, nat_table, snat_chain, build_rule_spec, add_rule, delete_rule,
  replace_rule, update_rule, reconcile_rules, reconcile,
}
use ezlb.Snat.Linux.Installed.{IsInstalled, drop_rule-IsInstalled, install_rule-IsInstalled}
use ezlb.Snat.Linux.Loops.{IsTracked, holds, drop_stale_keeps, visit_desired_keeps}
use ezlb.Snat.Linux.Orphans.{
  IsLawful, key_of, key_of-build_rule_spec, snat_rules, reconcile-IsTracked,
}
use ezlb.Snat.Linux.Refines.{IsReliable, books, reconcile-books}

module _ {F K : Type 0} (ipt : Iptables F K) (has : List String → K → Bool)
    (lawful : IsLawful ipt nat_table snat_chain has)
    (reliable : IsReliable ipt nat_table snat_chain) where
  replace_rule-IsInstalled :
      (key : String) (existing rule : SnatRule) (s : Half K SnatRule)
      → IsInstalled (snat_rules ipt has lawful) s
      → key_of (build_rule_spec rule) ≡ key
      → lookup key s.rules ≡ some existing
      → IsInstalled (snat_rules ipt has lawful) (replace_rule ipt key existing rule s)
  unfolding replace_rule add_rule delete_rule
  replace_rule-IsInstalled key existing rule s ok own there =
      let done = reliable.delete (build_rule_spec existing) s.kernel in
      let s' : Half K SnatRule = record s { kernel = (delete_rule ipt existing s.kernel).0 } in
      rw (done, replace_rule)
        (install_rule-IsInstalled (snat_rules ipt has lawful) key rule s'
          (reliable.append (build_rule_spec rule) s'.kernel)
          (λ j t other p. (
            ok.keyed j t p,
            ground (
              arith,
              done,
              p,
              lawful.delete (build_rule_spec existing) (build_rule_spec t) s.kernel,
              ok.present j t,
              ok.keyed j t,
              ok.keyed key existing,
              ==_iff {A = List String} (build_rule_spec existing) (build_rule_spec t),
              ==_iff {A = String} key j,
            ),
          ))
          own)

  update_rule-IsInstalled :
      (key : String) (rule : SnatRule) (s : Half K SnatRule)
      → IsInstalled (snat_rules ipt has lawful) s
      → key_of (build_rule_spec rule) ≡ key
      → IsInstalled (snat_rules ipt has lawful) (update_rule ipt key rule s)
  unfolding update_rule add_rule delete_rule
  update_rule-IsInstalled key rule s ok own = elim (Option-cases (lookup key s.rules)) [
    | inl absent ↦
        rw (absent, update_rule)
          (install_rule-IsInstalled (snat_rules ipt has lawful) key rule s
            (reliable.append (build_rule_spec rule) s.kernel)
            (λ j t other p. (ok.keyed j t p, ok.present j t p)) own)
    | inr (existing, there) ↦ elim (Bool-cases (existing.snat_ip == rule.snat_ip)) [
      | inl same ↦ rw (there, update_rule) (rw same ok)
      | inr other ↦
          rw (there, update_rule)
            (rw other (replace_rule-IsInstalled key existing rule s ok own there))
    ]
  ]

  pub reconcile-IsInstalled :
      (o : RangeOrder) (desired : List SnatRule) (m : LinuxManager K)
      → HasDistinctKeys m.managed
      → IsInstalled (snat_rules ipt has lawful) (record { kernel = m.ipt; rules = m.managed })
      → let m' = reconcile ipt o desired m in
        IsInstalled (snat_rules ipt has lawful) (record { kernel = m'.ipt; rules = m'.managed })
  unfolding reconcile reconcile_rules add_rule delete_rule lookup
  reconcile-IsInstalled o desired m distinct ok =
      let wanted = index_where (λ k. true) snat_rule_key desired [] in
      let wanted-HasDistinctKeys =
        index_where-HasDistinctKeys (λ k. true) snat_rule_key desired [] tt in
      let wanted-IsKeyed =
        index_where-IsKeyed (λ k. true) snat_rule_key desired [] (λ j v p. absurd (cc)) in
      let c = snat_rules ipt has lawful in
      visit_desired_keeps c (IsInstalled c) _ update_rule-IsInstalled (o.arrange wanted) _
        (drop_stale_keeps c (IsInstalled c)
          (λ key r s.
            drop_rule-IsInstalled c key r s (reliable.delete (build_rule_spec r) s.kernel))
          wanted (o.arrange m.managed) _ ok (HasDistinctKeys-arrange o m.managed distinct)
          (λ j r p. ground (arith, p, lookup-arrange o m.managed distinct j)))
        (HasDistinctKeys-arrange o wanted wanted-HasDistinctKeys)
        (λ j r p.
          key_of-build_rule_spec r
          ∙ wanted-IsKeyed j r
              (ground (arith, p, lookup-arrange o wanted wanted-HasDistinctKeys j)))

  -- A bool is that of `holds` where the chain and the managed rules agree both ways.
  has-holds :
      (known : List String → Bool) (x : List String) (s : Half K SnatRule)
      → known x ≡ false
      → IsTracked (snat_rules ipt has lawful) known s
      → IsInstalled (snat_rules ipt has lawful) s
      → has x s.kernel ≡ holds (snat_rules ipt has lawful) known x (lookup (key_of x) s.rules)
  unfolding add_rule delete_rule
  has-holds known x s new tracked installed = elim (Bool-cases (has x s.kernel)) [
    | inl there ↦ there ∙ sym (tracked.tracked x new there)
    | inr gone ↦ elim (Option-cases (lookup (key_of x) s.rules)) [
      | inl absent ↦ gone ∙ sym (ap (holds (snat_rules ipt has lawful) known x) absent)
      | inr (r, managed) ↦
          let present : has (build_rule_spec r) s.kernel ≡ true =
            installed.present (key_of x) r managed in
          let differs : (build_rule_spec r == x) ≡ false =
            ground (arith, present, gone, ==_iff {A = List String} (build_rule_spec r) x) in
          gone ∙ sym (ap (holds (snat_rules ipt has lawful) known x) managed ∙ differs)
    ]
  ]

  -- Where go-iptables keeps its documentation and no call on the SNAT chain fails, from a state where
  -- the managed rules are the chain's rules, apart from the `known` ones, Reconcile leaves a rule `x`
  -- that is not known in the chain exactly where it is the rule that `rule_after` leaves under its key.
  pub reconcile-has :
      (known : List String → Bool) (o : RangeOrder) (desired : List SnatRule) (m : LinuxManager K)
      → let s : Half K SnatRule = record { kernel = m.ipt; rules = m.managed } in
        IsTracked (snat_rules ipt has lawful) known s
        → IsInstalled (snat_rules ipt has lawful) s
        → (x : List String) → known x ≡ false
        → has x (reconcile ipt o desired m).ipt
          ≡ holds
              (snat_rules ipt has lawful)
              known
              x
              (rule_after (lookup (key_of x) (desired_rules desired)) (lookup (key_of x) m.managed))
  unfolding add_rule delete_rule
  reconcile-has known o desired m tracked installed x new =
      let m' = reconcile ipt o desired m in
      has-holds known x (record { kernel = m'.ipt; rules = m'.managed }) new
        (reconcile-IsTracked ipt has known lawful o desired m tracked)
        (reconcile-IsInstalled o desired m tracked.distinct installed)
      ∙ ap (holds (snat_rules ipt has lawful) known x) (
          ap (λ f. lookup (key_of x) f.managed) (reconcile-books ipt reliable o desired m)
          ∙ (reconcile-rule_after o desired (books m) tracked.distinct (key_of x)).0)
