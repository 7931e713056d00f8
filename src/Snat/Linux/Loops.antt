-- ===== src/Snat/Linux/Loops.antt =====
-- The loops of the iptables manager when any call may fail: every rule in the chain that was not
-- there before is the managed rule of its key.
use ezlb.Shared.{
  ◌≡◌, inl, inr, String, Bool, true, false, not, ◌&&◌, ◌||◌, Option, none, some, List, [], ◌∷◌,
  arith,
}
use ezlb.Shared.Eq.{◌==◌, string_eq, list_eq, ==_iff}
use ezlb.Shared.GoMap.{
  GoMap, lookup, HasDistinctKeys, lookup-insert, lookup-delete, HasDistinctKeys-insert,
  HasDistinctKeys-delete,
}
use ezlb.Shared.Tests.{is_some, Option-cases}
use ezlb.Snat.Linux.{Half, drop_rule, drop_stale, install_rule, add_absent, visit_desired}

-- What the manager relies on of two of go-iptables' calls, for the rules of one chain: `has x k` says
-- that the chain holds the rule `x`. A call that fails changes nothing; AppendUnique adds its rule,
-- DeleteIfExists removes it, and neither touches another rule.
pub record Chain (F K R : Type 0) : Type 0 where
  pub spec : R → List String
  pub key_of : List String → String
  pub add : R → K → K × Option F
  pub del : R → K → K × Option F
  pub has : List String → K → Bool
  pub has-add :
      (r : R) (x : List String) (k : K)
      → has x (add r k).0 ≡ (not (is_some (add r k).1) && spec r == x || has x k)
  pub has-del :
      (r : R) (x : List String) (k : K)
      → has x (del r k).0 ≡ (not (not (is_some (del r k).1) && spec r == x) && has x k)

module _ {F K R : Type 0} (c : Chain F K R) (known : List String → Bool) where
  open c use {spec, key_of, add, del, has, has-add, has-del}

  abbrev pub holds : List String → Option R → Bool
  holds x none = false
  holds x (some r) = spec r == x

  -- Each managed rule has its own key, and each rule of the chain, apart from the `known` ones, is the
  -- managed rule of its key.
  pub record IsTracked (s : Half K R) : Type 0 where
    pub distinct : HasDistinctKeys s.rules
    pub keyed : (j : String) (r : R) → lookup j s.rules ≡ some r → key_of (spec r) ≡ j
    pub tracked :
        (x : List String)
        → known x ≡ false
        → has x s.kernel ≡ true
        → holds x (lookup (key_of x) s.rules) ≡ true

  pub drop_rule-IsTracked :
      (key : String) (r : R) (s : Half K R)
      → IsTracked s
      → lookup key s.rules ≡ some r
      → IsTracked (drop_rule del key r s)
  unfolding drop_rule
  drop_rule-IsTracked key r s ok p = elim (Option-cases (del r s.kernel).1) [
    | inl done ↦
        rw (done, drop_rule)
          (record {
            distinct = HasDistinctKeys-delete key s.rules ok.distinct;
            keyed = λ j t q. ground (arith, lookup-delete key j s.rules, ok.keyed j t, q);
            tracked = λ x new there. ground (
              arith,
              p,
              done,
              lookup-delete key (key_of x) s.rules,
              has-del r x s.kernel,
              ok.tracked x,
              ==_iff {A = String} key (key_of x),
            );
          })
    | inr (e, failed) ↦
        rw (failed, drop_rule)
          (record {
            distinct = ok.distinct;
            keyed = ok.keyed;
            tracked = λ x new there. ground (arith, failed, has-del r x s.kernel, ok.tracked x);
          })
  ]

  pub install_rule-IsTracked :
      (key : String) (r : R) (s : Half K R)
      → IsTracked s
      → key_of (spec r) ≡ key
      → ((x : List String) → known x ≡ false → has x s.kernel ≡ true → (key == key_of x) ≡ false)
      → IsTracked (install_rule add key r s)
  unfolding install_rule
  install_rule-IsTracked key r s ok own clear = elim (Option-cases (add r s.kernel).1) [
    | inl done ↦
        rw (done, install_rule)
          (record {
            distinct = HasDistinctKeys-insert key r s.rules ok.distinct;
            keyed = λ j t q. ground (
              arith,
              own,
              q,
              lookup-insert key j r s.rules,
              ok.keyed j t,
              ==_iff {A = String} key j,
            );
            tracked = λ x new there. ground (
              arith,
              own,
              done,
              lookup-insert key (key_of x) r s.rules,
              has-add r x s.kernel,
              ok.tracked x,
              clear x,
              ==_iff {A = List String} (spec r) x,
              ==_iff {A = String} key (key_of x),
            );
          })
    | inr (e, failed) ↦
        rw (failed, install_rule)
          (record {
            distinct = ok.distinct;
            keyed = ok.keyed;
            tracked = λ x new there. ground (arith, failed, has-add r x s.kernel, ok.tracked x);
          })
  ]

  -- Where nothing is managed under the key, no unknown rule of the chain has it.
  pub absent_clear :
      (key : String) (s : Half K R)
      → IsTracked s
      → lookup key s.rules ≡ none
      → (x : List String) → known x ≡ false
      → has x s.kernel ≡ true
      → (key == key_of x) ≡ false
  absent_clear key s ok p x new there =
      ground (arith, p, ok.tracked x new there, ==_iff {A = String} key (key_of x))

  pub add_absent-IsTracked :
      (key : String) (r : R) (s : Half K R)
      → IsTracked s
      → key_of (spec r) ≡ key
      → IsTracked (add_absent add key r s)
  unfolding add_absent
  add_absent-IsTracked key r s ok own = elim (Option-cases (lookup key s.rules)) [
    | inl absent ↦
        rw (absent, add_absent)
          (install_rule-IsTracked key r s ok own (absent_clear key s ok absent))
    | inr (t, there) ↦ rw (there, add_absent) ok
  ]

-- The two loops keep what their bodies keep.
module _ {F K R : Type 0} (c : Chain F K R) (P : Half K R → Type 0) where
  open c use {spec, key_of, del}

  -- Dropping one rule leaves the managed rules of other keys.
  kept :
      (key : String) (r : R) (s : Half K R) (j : String) (t : R)
      → (key == j) ≡ false
      → lookup j s.rules ≡ some t
      → lookup j (drop_rule del key r s).rules ≡ some t
  unfolding drop_rule
  kept key r s j t other there = ground (arith, lookup-delete key j s.rules)

  pub drop_stale_keeps :
      ((key : String) (r : R) (s : Half K R)
        → P s
        → lookup key s.rules ≡ some r
        → P (drop_rule del key r s))
      → (desired visited : GoMap String R) (s : Half K R) → P s
      → HasDistinctKeys visited
      → ((j : String) (r : R) → lookup j visited ≡ some r → lookup j s.rules ≡ some r)
      → P (drop_stale del desired visited s)
  unfolding drop_stale lookup
  drop_stale_keeps keeps desired [] s ok distinct there = ok
  drop_stale_keeps keeps desired ((key, r) ∷ visited) s ok distinct there =
      let here = there key r (ground (arith, ==_iff {A = String} key key)) in
      elim (Option-cases (lookup key desired)) [
        | inl stale ↦
            rw (stale, drop_stale)
              (drop_stale_keeps keeps desired visited (drop_rule del key r s)
                (keeps key r s ok here) distinct.1
                (λ j t p.
                  kept key r s j t (ground (arith, p, distinct.0, ==_iff {A = String} key j))
                    (there j t (ground (arith, p, distinct.0, ==_iff {A = String} key j)))))
        | inr (t, wanted) ↦
            rw (wanted, drop_stale)
              (drop_stale_keeps keeps desired visited s ok distinct.1
                (λ j u p. there j u (ground (arith, p, distinct.0, ==_iff {A = String} key j))))
      ]

  pub visit_desired_keeps :
      (body : String → R → Half K R → Half K R)
      → ((key : String) (r : R) (s : Half K R) → P s → key_of (spec r) ≡ key → P (body key r s))
      → (desired : GoMap String R) (s : Half K R) → P s
      → HasDistinctKeys desired
      → ((j : String) (r : R) → lookup j desired ≡ some r → key_of (spec r) ≡ j)
      → P (visit_desired body desired s)
  unfolding visit_desired lookup
  visit_desired_keeps body keeps [] s ok distinct keyed = ok
  visit_desired_keeps body keeps ((key, r) ∷ desired) s ok distinct keyed =
      let own = keyed key r (ground (arith, ==_iff {A = String} key key)) in
      visit_desired_keeps body keeps desired (body key r s) (keeps key r s ok own) distinct.1
        (λ j t p. keyed j t (ground (arith, p, distinct.0, ==_iff {A = String} key j)))
