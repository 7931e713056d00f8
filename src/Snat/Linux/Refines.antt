-- ===== src/Snat/Linux/Refines.antt =====
-- Where no call of go-iptables fails, the iptables manager keeps the books of the in-memory one.
use ezlb.Shared.{◌≡◌, refl, ◌∙◌, ap, inl, inr, String, Option, none, List, [], ◌∷◌, true, arith}
use ezlb.Shared.Eq.{◌==◌, string_eq}
use ezlb.Shared.GoMap.{GoMap, lookup, insert, delete}
use ezlb.Shared.Index.{index_where}
use ezlb.Shared.Order.{RangeOrder}
use ezlb.Shared.Tests.{Option-cases, Bool-cases}
use ezlb.Snat.{SnatRule, ForwardRule, snat_rule_key, forward_rule_key}
use ezlb.Snat.Fake
use ezlb.Snat.Fake.{FakeManager, remove_stale, add_or_update, add_missing, add_each}
use ezlb.Snat.Linux.{
  Iptables, LinuxManager, Half, nat_table, filter_table, snat_chain, forward_chain, add_rule,
  delete_rule, add_forward_rule, delete_forward_rule, drop_rule, drop_stale, install_rule,
  add_absent, visit_desired, replace_rule, update_rule, reconcile_rules, reconcile_forward_rules,
  reconcile, reconcile_forward,
}

-- The calls on one chain return no error.
pub record IsReliable {F K : Type 0} (ipt : Iptables F K) (table chain : String) : Type 0 where
  pub append : (spec : List String) (k : K) → (ipt.append_unique table chain spec k).1 ≡ none
  pub delete : (spec : List String) (k : K) → (ipt.delete_if_exists table chain spec k).1 ≡ none

-- What the iptables manager remembers, as the in-memory manager.
abbrev pub books : {K : Type 0} → LinuxManager K → FakeManager
books m = record { managed = m.managed; managed_forward = m.managed_forward }

drop_stale-remove_stale :
    {F K R : Type 0} (del : R → K → K × Option F)
    → ((r : R) (k : K) → (del r k).1 ≡ none)
    → (desired visited : GoMap String R) (s : Half K R)
    → (drop_stale del desired visited s).rules ≡ remove_stale desired visited s.rules
unfolding drop_stale drop_rule remove_stale
drop_stale-remove_stale del never desired [] s = refl
drop_stale-remove_stale del never desired ((key, r) ∷ visited) s =
    elim (Option-cases (lookup key desired)) [
      | inl stale ↦
          let s' = drop_rule del key r s in
          let step : s'.rules ≡ delete key s.rules = ground (arith, never r s.kernel) in
          rw (stale, drop_stale)
            (drop_stale-remove_stale del never desired visited s'
              ∙ ap (remove_stale desired visited) step)
      | inr (t, wanted) ↦
          rw (wanted, drop_stale) (drop_stale-remove_stale del never desired visited s)
    ]

visit_desired-add_each :
    {K R : Type 0} (body : String → R → Half K R → Half K R)
    (add : String → R → GoMap String R → GoMap String R)
    → ((key : String) (r : R) (s : Half K R) → (body key r s).rules ≡ add key r s.rules)
    → (desired : GoMap String R) (s : Half K R)
    → (visit_desired body desired s).rules ≡ add_each add desired s.rules
unfolding visit_desired add_each
visit_desired-add_each body add same [] s = refl
visit_desired-add_each body add same ((key, r) ∷ desired) s =
    visit_desired-add_each body add same desired (body key r s)
    ∙ ap (add_each add desired) (same key r s)

add_absent-add_missing :
    {F K : Type 0} (add : ForwardRule → K → K × Option F)
    → ((r : ForwardRule) (k : K) → (add r k).1 ≡ none)
    → (key : String) (r : ForwardRule) (s : Half K ForwardRule)
    → (add_absent add key r s).rules ≡ add_missing key r s.rules
unfolding add_absent install_rule add_missing
add_absent-add_missing add never key r s = ground (arith, never r s.kernel)

module _ {F K : Type 0} (ipt : Iptables F K) where
  module _ (reliable : IsReliable ipt nat_table snat_chain) where
    install_lem :
        (key : String) (r : SnatRule) (s : Half K SnatRule)
        → (install_rule (add_rule ipt) key r s).rules ≡ insert key r s.rules
    unfolding install_rule add_rule ezlb.Snat.Linux.build_rule_spec
    install_lem key r s =
        ground (arith, reliable.append (ezlb.Snat.Linux.build_rule_spec r) s.kernel)

    update_rule-add_or_update :
        (key : String) (r : SnatRule) (s : Half K SnatRule)
        → (update_rule ipt key r s).rules ≡ add_or_update key r s.rules
    unfolding update_rule replace_rule delete_rule add_or_update
    update_rule-add_or_update key r s = elim (Option-cases (lookup key s.rules)) [
      | inl absent ↦ rw (absent, update_rule) (rw (absent, add_or_update) (install_lem key r s))
      | inr (t, there) ↦
          let deleted = reliable.delete (ezlb.Snat.Linux.build_rule_spec t) s.kernel in
          rw (there, update_rule)
            (rw (there, add_or_update)
              (elim (Bool-cases (t.snat_ip == r.snat_ip)) [
                | inl same ↦ rw same refl
                | inr other ↦ rw other (rw (deleted, replace_rule) (install_lem key r _))
              ]))
    ]

    -- Where no call on the SNAT chain fails, Reconcile over iptables changes the managed rules exactly
    -- as the in-memory manager's does.
    pub reconcile-books :
        (o : RangeOrder) (desired : List SnatRule) (m : LinuxManager K)
        → books (reconcile ipt o desired m) ≡ Fake.reconcile o desired (books m)
    unfolding reconcile reconcile_rules Fake.reconcile delete_rule
    reconcile-books o desired m =
        let wanted = index_where (λ k. true) snat_rule_key desired [] in
        let s : Half K SnatRule = record { kernel = m.ipt; rules = m.managed } in
        let s' = drop_stale (delete_rule ipt) wanted (o.arrange m.managed) s in
        ap (λ rules. record { managed = rules; managed_forward = m.managed_forward })
          (visit_desired-add_each (update_rule ipt) add_or_update update_rule-add_or_update
              (o.arrange wanted) s'
            ∙ ap (add_each add_or_update (o.arrange wanted)) (
                drop_stale-remove_stale (delete_rule ipt)
                  (λ r k. reliable.delete (ezlb.Snat.Linux.build_rule_spec r) k) wanted
                  (o.arrange m.managed) s))

  -- Where no call on the FORWARD chain fails, so does ReconcileForward.
  pub reconcile_forward-books :
      IsReliable ipt filter_table forward_chain
      → (o : RangeOrder) (desired : List ForwardRule) (m : LinuxManager K)
      → books (reconcile_forward ipt o desired m) ≡ Fake.reconcile_forward o desired (books m)
  unfolding reconcile_forward reconcile_forward_rules Fake.reconcile_forward delete_forward_rule
      add_forward_rule
  reconcile_forward-books reliable o desired m =
      let wanted = index_where (λ k. true) forward_rule_key desired [] in
      let s : Half K ForwardRule = record { kernel = m.ipt; rules = m.managed_forward } in
      let s' = drop_stale (delete_forward_rule ipt) wanted (o.arrange m.managed_forward) s in
      ap (λ rules. record { managed = m.managed; managed_forward = rules })
        (visit_desired-add_each (add_absent (add_forward_rule ipt)) add_missing
            (add_absent-add_missing (add_forward_rule ipt)
              (λ r k. reliable.append (ezlb.Snat.Linux.build_forward_rule_spec r) k))
            (o.arrange wanted) s'
          ∙ ap (add_each add_missing (o.arrange wanted)) (
              drop_stale-remove_stale (delete_forward_rule ipt)
                (λ r k. reliable.delete (ezlb.Snat.Linux.build_forward_rule_spec r) k) wanted
                (o.arrange m.managed_forward) s))
