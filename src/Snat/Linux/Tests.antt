-- ===== src/Snat/Linux/Tests.antt =====
-- The iptables manager on a chain with one managed rule and one of someone else, over a kernel that is
-- the set of its rules.
use ezlb.Shared.{
  ◌≡◌, refl, ◌∙◌, ap, sym, String, Bool, true, false, not, ◌&&◌, ◌||◌, Option, none, some, List, [],
  ◌∷◌, arith,
}
use mathlib.Core.Path.{subst}
use ezlb.Shared.Decimal.{itoa}
use ezlb.Shared.Eq.{◌==◌, string_eq, list_eq, ==_iff}
use ezlb.Shared.GoMap.{lookup}
use ezlb.Shared.Result.{ok}
use ezlb.Shared.Tests.{if◌then◌else◌, is_some}
use ezlb.Snat.{SnatRule, ForwardRule, snat_rule_key}
use ezlb.Snat.Fake
use ezlb.Snat.Fake.Reconcile.{desired_rules, rule_after}
use ezlb.Snat.Linux.{
  Iptables, LinuxManager, Half, nat_table, filter_table, snat_chain, forward_chain, build_rule_spec,
  add_rule, delete_rule, update_rule, reconcile, reconcile_forward, add_forward_rule,
  delete_forward_rule,
}
use ezlb.Snat.Linux.Exact.{reconcile-has}
use ezlb.Snat.Linux.Installed.{IsInstalled}
use ezlb.Snat.Linux.Loops.{IsTracked, holds}
use ezlb.Snat.Linux.Lost.{update_rule-lost}
use ezlb.Snat.Linux.Orphans.{
  IsLawful, key_of, snat_rules, forward_rules, reconcile-IsTracked, reconcile_forward-IsTracked,
}
use ezlb.Snat.Linux.Refines.{IsReliable, books, reconcile-books, reconcile_forward-books}
use ezlb.Snat.Linux.Stats.{TextCalls, parse_snat_stats_row}
use ezlb.Snat.Linux.Stats.Rows.{parse_snat_stats_row-other_key}
use ezlb.Std.Sample.{in_order}

-- The rules of the kernel's one chain.
abbrev Kernel : Type 0
Kernel = List String → Bool

abbrev has : List String → Kernel → Bool
has x k = k x

abbrev append_to : Bool → List String → Kernel → Kernel × Option String
append_to true spec k = (k, some "refused")
append_to false spec k = (λ x. spec == x || k x, none)

-- iptables that refuses to add the rules that `refused` names.
abbrev iptables : (List String → Bool) → Iptables String Kernel
iptables refused = record {
  chain_exists = λ table chain k. ok true;
  new_chain = λ table chain k. (k, none);
  clear_chain = λ table chain k. (λ x. false, none);
  delete_chain = λ table chain k. (k, none);
  exists = λ table chain spec k. ok (k spec);
  append_unique = λ table chain spec k. append_to (refused spec) spec k;
  insert_at = λ table chain n spec k. (λ x. spec == x || k x, none);
  delete_if_exists = λ table chain spec k. (λ x. not (spec == x) && k x, none);
  stats = λ table chain k. ok [];
}

append-lawful :
    (b : Bool) (spec x : List String) (k : Kernel)
    → has x (append_to b spec k).0 ≡ (not (is_some (append_to b spec k).1) && spec == x || has x k)
append-lawful true spec x k = refl
append-lawful false spec x k = refl

iptables-IsLawful :
    (refused : List String → Bool) (table chain : String)
    → IsLawful (iptables refused) table chain has
iptables-IsLawful refused table chain = record {
  append = λ spec x k. append-lawful (refused spec) spec x k;
  delete = λ spec x k. refl;
}

abbrev works : Iptables String Kernel
works = iptables (λ spec. false)

abbrev works-IsLawful : (table chain : String) → IsLawful works table chain has
works-IsLawful = iptables-IsLawful (λ spec. false)

works-IsReliable : (table chain : String) → IsReliable works table chain
works-IsReliable table chain = record { append = λ spec k. refl; delete = λ spec k. refl }

abbrev old : SnatRule
old = record { backend_ip = "10.0.1.1"; protocol = "tcp"; snat_ip = ""; backend_port = 80 }

abbrev new : SnatRule
new = record { backend_ip = "10.0.1.1"; protocol = "tcp"; snat_ip = "192.0.2.1"; backend_port = 80 }

abbrev forward : ForwardRule
forward = record { backend_ip = "10.0.1.1"; protocol = "tcp"; backend_port = 80 }

abbrev foreign : List String
foreign = "-j" ∷ "RETURN" ∷ []

abbrev is_foreign : List String → Bool
is_foreign x = foreign == x

abbrev start : LinuxManager Kernel
start = record {
  ipt = λ x. build_rule_spec old == x || is_foreign x;
  managed = ("10.0.1.1:80/tcp", old) ∷ [];
  managed_forward = [];
}

abbrev half : Half Kernel SnatRule
half = record { kernel = start.ipt; rules = start.managed }

only_old :
    (j : String) (r : SnatRule)
    → lookup j start.managed ≡ some r
    → (r ≡ old) × ("10.0.1.1:80/tcp" ≡ j)
unfolding lookup
only_old j r p = ground (arith, ==_iff {A = String} "10.0.1.1:80/tcp" j)

key_of-old : key_of (build_rule_spec old) ≡ "10.0.1.1:80/tcp"
unfolding build_rule_spec itoa
key_of-old = refl

half-IsTracked :
    IsTracked (snat_rules works has (works-IsLawful nat_table snat_chain)) is_foreign half
unfolding lookup add_rule delete_rule build_rule_spec itoa
half-IsTracked = record {
  distinct = (refl, tt);
  keyed = λ j r p.
      ap (λ t. key_of (build_rule_spec t)) (only_old j r p).0 ∙ key_of-old ∙ (only_old j r p).1;
  tracked = λ x unknown there.
      let rest : (build_rule_spec old == x || is_foreign x) ≡ true = there in
      let at : build_rule_spec old ≡ x =
        ground (arith, rest, unknown, ==_iff {A = List String} (build_rule_spec old) x) in
      subst
        (λ y.
          holds (snat_rules works has (works-IsLawful nat_table snat_chain)) is_foreign y
            (lookup (key_of y) start.managed)
          ≡ true)
        at refl;
}

half-IsInstalled : IsInstalled (snat_rules works has (works-IsLawful nat_table snat_chain)) half
unfolding add_rule delete_rule build_rule_spec itoa
half-IsInstalled = record {
  keyed = λ j r p.
      ap (λ t. key_of (build_rule_spec t)) (only_old j r p).0 ∙ key_of-old ∙ (only_old j r p).1;
  present =
      λ j r p. subst (λ t. has (build_rule_spec t) start.ipt ≡ true) (sym (only_old j r p).0) refl;
}

reconcile-IsTracked_example :
    let m' = reconcile works in_order (new ∷ []) start in
    IsTracked
      (snat_rules works has (works-IsLawful nat_table snat_chain))
      is_foreign
      (record { kernel = m'.ipt; rules = m'.managed })
reconcile-IsTracked_example =
    reconcile-IsTracked works has is_foreign (works-IsLawful nat_table snat_chain) in_order
      (new ∷ []) start half-IsTracked

forward_half-IsTracked :
    IsTracked
      (forward_rules works has (works-IsLawful filter_table forward_chain))
      start.ipt
      (record { kernel = start.ipt; rules = start.managed_forward })
unfolding lookup add_forward_rule delete_forward_rule
forward_half-IsTracked = record {
  distinct = tt;
  keyed = λ j r p. absurd (cc);
  tracked = λ x unknown there. absurd (cc (unknown, there));
}

reconcile_forward-IsTracked_example :
    let m' = reconcile_forward works in_order (forward ∷ []) start in
    IsTracked
      (forward_rules works has (works-IsLawful filter_table forward_chain))
      start.ipt
      (record { kernel = m'.ipt; rules = m'.managed_forward })
reconcile_forward-IsTracked_example =
    reconcile_forward-IsTracked works has start.ipt (works-IsLawful filter_table forward_chain)
      in_order (forward ∷ []) start forward_half-IsTracked

reconcile-books_example :
    books (reconcile works in_order (new ∷ []) start)
    ≡ Fake.reconcile in_order (new ∷ []) (books start)
reconcile-books_example =
    reconcile-books works (works-IsReliable nat_table snat_chain) in_order (new ∷ []) start

reconcile_forward-books_example :
    books (reconcile_forward works in_order (forward ∷ []) start)
    ≡ Fake.reconcile_forward in_order (forward ∷ []) (books start)
reconcile_forward-books_example =
    reconcile_forward-books works (works-IsReliable filter_table forward_chain) in_order
      (forward ∷ []) start

reconcile-has_example :
    has (build_rule_spec new) (reconcile works in_order (new ∷ []) start).ipt
    ≡ holds
        (snat_rules works has (works-IsLawful nat_table snat_chain))
        is_foreign
        (build_rule_spec new)
        (rule_after
          (lookup (key_of (build_rule_spec new)) (desired_rules (new ∷ [])))
          (lookup (key_of (build_rule_spec new)) start.managed))
unfolding build_rule_spec
reconcile-has_example =
    reconcile-has works has (works-IsLawful nat_table snat_chain)
      (works-IsReliable nat_table snat_chain) is_foreign in_order (new ∷ []) start half-IsTracked
      half-IsInstalled (build_rule_spec new) refl

-- iptables that refuses the new rule.
abbrev refuses : Iptables String Kernel
refuses = iptables (λ spec. build_rule_spec new == spec)

update_rule-lost_example :
    let s' = update_rule refuses "10.0.1.1:80/tcp" new half in
    (s'.rules ≡ half.rules)
    × (has (build_rule_spec old) s'.kernel ≡ false)
    × (has (build_rule_spec new) s'.kernel ≡ false)
    × (update_rule refuses "10.0.1.1:80/tcp" old s' ≡ s')
unfolding lookup add_rule delete_rule build_rule_spec itoa
update_rule-lost_example =
    update_rule-lost refuses has
      (iptables-IsLawful (λ spec. build_rule_spec new == spec) nat_table snat_chain)
      "10.0.1.1:80/tcp" old new "refused" half refl refl refl refl refl

abbrev text : TextCalls
text = record {
  scan_uint64 = λ s. if s == "12" then some 12 else if s == "3456" then some 3456 else none;
  fields =
      λ s. if s == "tcp dpt:80 to:192.0.2.1" then "tcp" ∷ "dpt:80" ∷ "to:192.0.2.1" ∷ [] else [];
}

parse_snat_stats_row-other_key_example :
    (parse_snat_stats_row text (
        "12" ∷ "3456" ∷ "SNAT" ∷ "tcp" ∷ "--" ∷ "*" ∷ "*" ∷ "0.0.0.0/0" ∷ "10.0.1.1/32"
        ∷ "tcp dpt:80 to:192.0.2.1" ∷ [])
      ≡ some ("10.0.1.1/32:80/tcp", record { packets = 12; bytes = 3456 }))
    × (("10.0.1.1/32:80/tcp" == snat_rule_key new) ≡ false)
unfolding itoa
parse_snat_stats_row-other_key_example =
    parse_snat_stats_row-other_key text new (record { packets = 12; bytes = 3456 }) "12" "3456"
      "SNAT" "--" "*" "*" "0.0.0.0/0" "32" "tcp dpt:80 to:192.0.2.1" ("tcp" ∷ [])
      ("to:192.0.2.1" ∷ []) refl refl refl (refl, tt) refl
