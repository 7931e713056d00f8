-- ===== src/Snat/Linux/Stats.antt =====
-- pkg/snat/stats_parse.go, pkg/snat/stats.go and (*linuxManager).Stats of pkg/snat/manager_linux.go:
-- the counters of the SNAT chain. `scan_uint64` is fmt.Sscanf with "%d", `none` where it fails, and
-- `fields` is strings.Fields.
pub mod Rows
use Prim.Native.String.{◌++◌, slice, len}
use ezlb.Shared.{ℕ, String, Option, none, some, List, [], ◌∷◌}
use ezlb.Shared.Eq.{◌==◌, string_eq}
use ezlb.Shared.GoMap.{GoMap, lookup, insert}
use ezlb.Shared.Result.{Result, ok, err}
use ezlb.Shared.Tests.{if◌then◌else◌}
use ezlb.Snat.Linux.{Iptables, LinuxManager, nat_table, snat_chain}
use text.Mathlib.Text.{starts_with}

pub record TextCalls : Type 0 where
  pub scan_uint64 : String → Option ℕ
  pub fields : String → List String

pub record SnatRuleStats : Type 0 where
  pub packets : ℕ  -- uint64
  pub bytes : ℕ  -- uint64

-- strings.Join with a space
abbrev pub join : List String → String
join [] = ""
join (s ∷ []) = s
join (s ∷ t ∷ rest) = s ++ " " ++ join (t ∷ rest)

-- strings.TrimPrefix
abbrev pub trim_prefix : String → String → String
trim_prefix s prefix = if starts_with s prefix then slice s (len prefix) (len s) else s

-- The body of extractDPort's loop at `token`, before the tokens of `rest`.
unfoldable pub dport_at : String → List String → Option String
dport_at token [] =
    if token == "dpt:"
    then none
    else if starts_with token "dpt:"
    then some (trim_prefix token "dpt:")
    else none
dport_at token (next ∷ rest) =
    if token == "dpt:"
    then some next
    else if starts_with token "dpt:"
    then some (trim_prefix token "dpt:")
    else none

unfoldable pub find_dport : List String → String
find_dport [] = ""
find_dport (token ∷ rest) = elim (dport_at token rest) [ some port ↦ port | none ↦ find_dport rest ]

module _ (text : TextCalls) where
  unfoldable pub extract_dport : List String → String
  extract_dport [] = ""
  extract_dport (field ∷ extra) = find_dport (text.fields (join (field ∷ extra)))

  -- The key and the counters, once both have been read.
  unfoldable pub keyed_stats :
      SnatRuleStats → String → String → List String → Option (String × SnatRuleStats)
  keyed_stats stats protocol destination extra =
      let dport = extract_dport extra in
      if protocol == ""
      then none
      else if destination == ""
      then none
      else if dport == ""
      then none
      else some (destination ++ ":" ++ dport ++ "/" ++ protocol, stats)

  unfoldable pub parse_snat_stats_row : List String → Option (String × SnatRuleStats)
  parse_snat_stats_row
        (pkts ∷ bytes ∷ target ∷ protocol ∷ opt ∷ input ∷ output ∷ source ∷ destination ∷ extra) =
      elim (text.scan_uint64 pkts) [
        | none ↦ none
        | some p ↦ elim (text.scan_uint64 bytes) [
          | none ↦ none
          | some b ↦ keyed_stats (record { packets = p; bytes = b }) protocol destination extra
        ]
      ]
  parse_snat_stats_row row = none

  -- The loop of Stats.
  unfoldable pub add_rows :
      List (List String) → GoMap String SnatRuleStats → GoMap String SnatRuleStats
  add_rows [] result = result
  add_rows (row ∷ rows) result = add_rows rows (elim (parse_snat_stats_row row) [
    | none ↦ result
    | some (key, stats) ↦ insert key stats result
  ])

  unfoldable pub stats :
      {F K : Type 0} → Iptables F K → LinuxManager K → Result F (GoMap String SnatRuleStats)
  stats ipt m = elim (ipt.stats nat_table snat_chain m.ipt) [
    | err e ↦ err e
    | ok rows ↦ ok (add_rows rows [])
  ]
