-- ===== src/Snat/Fake/Reconcile.antt =====
-- What Reconcile and ReconcileForward of the in-memory rule manager leave under every key.
use ezlb.Shared.{◌≡◌, refl, ◌∙◌, String, Option, none, some, List, [], true, arith}
use ezlb.Shared.Eq.{string_eq}
use ezlb.Shared.GoMap.{GoMap, lookup, HasDistinctKeys}
use ezlb.Shared.Index.{index_where, index_where-HasDistinctKeys}
use ezlb.Shared.Order.{RangeOrder, lookup-arrange, HasDistinctKeys-arrange}
use ezlb.Snat.{SnatRule, ForwardRule, snat_rule_key, forward_rule_key}
use ezlb.Snat.Fake.{
  FakeManager, reconcile, reconcile_forward, remove_stale, add_or_update, add_missing,
}
use ezlb.Snat.Fake.Loops.{
  kept_rule, kept_forward, lookup-add_or_update, lookup-add_missing, lookup-remove_stale,
  lookup-add_each,
}

-- The last of the desired rules under each key.
abbrev pub desired_rules : List SnatRule → GoMap String SnatRule
desired_rules rules = index_where (λ k. true) snat_rule_key rules []

abbrev pub desired_forward : List ForwardRule → GoMap String ForwardRule
desired_forward rules = index_where (λ k. true) forward_rule_key rules []

abbrev pub rule_after : Option SnatRule → Option SnatRule → Option SnatRule
rule_after none actual = none
rule_after (some rule) actual = some (kept_rule rule actual)

abbrev pub forward_after : Option ForwardRule → Option ForwardRule → Option ForwardRule
forward_after none actual = none
forward_after (some rule) actual = some (kept_forward rule actual)

module _ (o : RangeOrder) where
  -- From a state whose keys are distinct, Reconcile leaves under each key no rule where none is
  -- desired, and else the desired rule, or the one already there if its SNAT address agrees; the
  -- FORWARD rules are as before.
  pub reconcile-rule_after :
      (rules : List SnatRule) (m : FakeManager)
      → HasDistinctKeys m.managed
      → (j : String)
      → let m' = reconcile o rules m in
        (lookup j m'.managed ≡ rule_after (lookup j (desired_rules rules)) (lookup j m.managed))
        × (m'.managed_forward ≡ m.managed_forward)
  unfolding reconcile
  reconcile-rule_after rules m distinct j =
      let wanted = desired_rules rules in
      let wanted-HasDistinctKeys =
        index_where-HasDistinctKeys (λ k. true) snat_rule_key rules [] tt in
      let kept = remove_stale wanted (o.arrange m.managed) m.managed in
      (
        lookup-add_each add_or_update kept_rule lookup-add_or_update (o.arrange wanted) kept j
              (HasDistinctKeys-arrange o wanted wanted-HasDistinctKeys)
            ∙ ground (
              arith,
              lookup-remove_stale wanted (o.arrange m.managed) m.managed j,
              lookup-arrange o m.managed distinct j,
              lookup-arrange o wanted wanted-HasDistinctKeys j,
            ),
        refl,
      )

  -- From a state whose forward keys are distinct, ReconcileForward leaves under each key no rule
  -- where none is desired, and else the one already there or, without one, the desired rule; the
  -- SNAT rules are as before.
  pub reconcile_forward-forward_after :
      (rules : List ForwardRule) (m : FakeManager)
      → HasDistinctKeys m.managed_forward
      → (j : String)
      → let m' = reconcile_forward o rules m in
        (lookup j m'.managed_forward
          ≡ forward_after (lookup j (desired_forward rules)) (lookup j m.managed_forward))
        × (m'.managed ≡ m.managed)
  unfolding reconcile_forward
  reconcile_forward-forward_after rules m distinct j =
      let wanted = desired_forward rules in
      let wanted-HasDistinctKeys =
        index_where-HasDistinctKeys (λ k. true) forward_rule_key rules [] tt in
      let kept = remove_stale wanted (o.arrange m.managed_forward) m.managed_forward in
      (
        lookup-add_each add_missing kept_forward lookup-add_missing (o.arrange wanted) kept j
              (HasDistinctKeys-arrange o wanted wanted-HasDistinctKeys)
            ∙ ground (
              arith,
              lookup-remove_stale wanted (o.arrange m.managed_forward) m.managed_forward j,
              lookup-arrange o m.managed_forward distinct j,
              lookup-arrange o wanted wanted-HasDistinctKeys j,
            ),
        refl,
      )
