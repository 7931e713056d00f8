-- ===== src/Snat/Fake/Loops.antt =====
-- The two loops of the in-memory rule manager's reconcilers, at each key.
use ezlb.Shared.{◌≡◌, refl, ◌∙◌, inl, inr, String, Option, none, some, [], ◌∷◌, arith}
use ezlb.Shared.Eq.{◌==◌, string_eq, ==_iff}
use ezlb.Shared.GoMap.{GoMap, lookup, delete, HasDistinctKeys, lookup-insert, lookup-delete}
use ezlb.Shared.Tests.{if◌then◌else◌, is_some, Option-cases}
use ezlb.Snat.{SnatRule, ForwardRule}
use ezlb.Snat.Fake.{remove_stale, add_or_update, add_missing, add_each}

-- The SNAT rule kept at a key: an existing one of the same address, and else the desired one.
abbrev pub kept_rule : SnatRule → Option SnatRule → SnatRule
kept_rule rule none = rule
kept_rule rule (some existing) = if existing.snat_ip == rule.snat_ip then existing else rule

abbrev pub kept_forward : ForwardRule → Option ForwardRule → ForwardRule
kept_forward rule none = rule
kept_forward rule (some existing) = existing

pub lookup-add_or_update :
    (key j : String) (rule : SnatRule) (m : GoMap String SnatRule)
    → lookup j (add_or_update key rule m)
      ≡ (if key == j then some (kept_rule rule (lookup j m)) else lookup j m)
unfolding add_or_update
lookup-add_or_update key j rule m =
    ground (arith, lookup-insert key j rule m, ==_iff {A = String} key j)

pub lookup-add_missing :
    (key j : String) (rule : ForwardRule) (m : GoMap String ForwardRule)
    → lookup j (add_missing key rule m)
      ≡ (if key == j then some (kept_forward rule (lookup j m)) else lookup j m)
unfolding add_missing
lookup-add_missing key j rule m =
    ground (arith, lookup-insert key j rule m, ==_iff {A = String} key j)

module _ {R : Type 0} where
  pub lookup-remove_stale :
      (desired visited m : GoMap String R) (j : String)
      → lookup j (remove_stale desired visited m) ≡ (
          if is_some (lookup j desired)
          then lookup j m
          else if is_some (lookup j visited)
          then none
          else lookup j m)
  unfolding remove_stale lookup
  lookup-remove_stale desired [] m j = ground arith
  lookup-remove_stale desired ((key, r) ∷ visited) m j = elim (Option-cases (lookup key desired)) [
    | inl stale ↦
        rw (stale, remove_stale)
          (ground (
            arith,
            stale,
            lookup-remove_stale desired visited (delete key m) j,
            lookup-delete key j m,
            ==_iff {A = String} key j,
          ))
    | inr (d, wanted) ↦
        rw (wanted, remove_stale)
          (ground
            (arith, wanted, lookup-remove_stale desired visited m j, ==_iff {A = String} key j))
  ]

  module _ (add : String → R → GoMap String R → GoMap String R) (kept : R → Option R → R)
      (lookup-add : (key j : String) (r : R) (m : GoMap String R)
        → lookup j (add key r m)
          ≡ (if key == j then some (kept r (lookup j m)) else lookup j m)) where
    pub lookup-add_each :
        (desired m : GoMap String R) (j : String)
        → HasDistinctKeys desired
        → lookup j (add_each add desired m)
          ≡ elim (lookup j desired) [ none ↦ lookup j m | some r ↦ some (kept r (lookup j m)) ]
    unfolding add_each lookup
    lookup-add_each [] m j distinct = refl
    lookup-add_each ((key, r) ∷ desired) m j distinct =
        lookup-add_each desired (add key r m) j distinct.1
        ∙ ground (arith, lookup-add key j r m, distinct.0, ==_iff {A = String} key j)
