-- ===== src/Snat/Linux/Installed.antt =====
-- Where no call of go-iptables fails, each managed rule is in its chain.
use ezlb.Shared.{◌≡◌, inl, inr, String, true, false, none, some, List, arith}
use ezlb.Shared.Eq.{◌==◌, string_eq, list_eq, ==_iff}
use ezlb.Shared.GoMap.{lookup, lookup-insert, lookup-delete}
use ezlb.Shared.Tests.{Option-cases, Bool-cases}
use ezlb.Snat.Linux.{Half, drop_rule, install_rule, add_absent}
use ezlb.Snat.Linux.Loops.{Chain}

module _ {F K R : Type 0} (c : Chain F K R) where
  open c use {spec, key_of, add, del, has, has-add, has-del}

  pub record IsInstalled (s : Half K R) : Type 0 where
    pub keyed : (j : String) (r : R) → lookup j s.rules ≡ some r → key_of (spec r) ≡ j
    pub present : (j : String) (r : R) → lookup j s.rules ≡ some r → has (spec r) s.kernel ≡ true

  pub drop_rule-IsInstalled :
      (key : String) (r : R) (s : Half K R)
      → (del r s.kernel).1 ≡ none
      → IsInstalled s
      → lookup key s.rules ≡ some r
      → IsInstalled (drop_rule del key r s)
  unfolding drop_rule
  drop_rule-IsInstalled key r s done ok p =
      rw (done, drop_rule)
        (record {
          keyed = λ j t q. ground (arith, lookup-delete key j s.rules, ok.keyed j t, q);
          present = λ j t q. ground (
            arith,
            done,
            p,
            q,
            lookup-delete key j s.rules,
            has-del r (spec t) s.kernel,
            ok.present j t,
            ok.keyed j t,
            ok.keyed key r,
            ==_iff {A = List String} (spec r) (spec t),
            ==_iff {A = String} key j,
          );
        })

  -- Installing under `key` needs the other keys only.
  pub install_rule-IsInstalled :
      (key : String) (r : R) (s : Half K R)
      → (add r s.kernel).1 ≡ none
      → ((j : String) (t : R)
          → (key == j) ≡ false
          → lookup j s.rules ≡ some t
          → (key_of (spec t) ≡ j) × (has (spec t) s.kernel ≡ true))
      → key_of (spec r) ≡ key
      → IsInstalled (install_rule add key r s)
  unfolding install_rule
  install_rule-IsInstalled key r s done others own =
      rw (done, install_rule)
        (record {
          keyed = λ j t q. elim (Bool-cases (key == j)) [
            | inl same ↦
                ground (arith, own, q, lookup-insert key j r s.rules, ==_iff {A = String} key j)
            | inr other ↦ (others j t other (ground (arith, q, lookup-insert key j r s.rules))).0
          ];
          present = λ j t q. elim (Bool-cases (key == j)) [
            | inl same ↦ ground (
              arith,
              done,
              q,
              lookup-insert key j r s.rules,
              has-add r (spec t) s.kernel,
              ==_iff {A = List String} (spec r) (spec t),
            )
            | inr other ↦
                let there = others j t other (ground (arith, q, lookup-insert key j r s.rules)) in
                ground (arith, there.1, has-add r (spec t) s.kernel)
          ];
        })

  pub add_absent-IsInstalled :
      (key : String) (r : R) (s : Half K R)
      → (add r s.kernel).1 ≡ none
      → IsInstalled s
      → key_of (spec r) ≡ key
      → IsInstalled (add_absent add key r s)
  unfolding add_absent
  add_absent-IsInstalled key r s done ok own = elim (Option-cases (lookup key s.rules)) [
    | inl absent ↦
        rw (absent, add_absent)
          (install_rule-IsInstalled key r s done (λ j t other p. (ok.keyed j t p, ok.present j t p))
            own)
    | inr (t, there) ↦ rw (there, add_absent) ok
  ]
