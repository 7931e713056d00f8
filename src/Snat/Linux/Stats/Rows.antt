-- ===== src/Snat/Linux/Stats/Rows.antt =====
-- The key under which a row of the SNAT chain's counters is read.
use Prim.Native.String.{◌++◌ as append, slice, len}
use ezlb.Shared.{
  ◌≡◌, refl, ◌∙◌, ap, ℕ, suc, ◌+◌, inl, inr, String, false, none, some, List, [], ◌∷◌, ◌++◌, arith,
}
use ezlb.Shared.Decimal.{itoa, itoa-nonempty}
use ezlb.Shared.Eq.{◌==◌, string_eq, ==_iff}
use ezlb.Shared.Tests.{Bool-cases}
use ezlb.Snat.{SnatRule, snat_rule_key}
use ezlb.Snat.Linux.Stats.{
  TextCalls, SnatRuleStats, dport_at, find_dport, extract_dport, keyed_stats, parse_snat_stats_row,
}
use text.Mathlib.Text.{starts_with}
use text.Mathlib.TextPositions.{starts_with-append, slice-append_right, len-append}
use text.Mathlib.TextLemmas.{append_cancel_left}

-- None of the tokens begins with "dpt:".
abbrev pub HasNoDport : List String → Type 0
HasNoDport [] = Unit {0}
HasNoDport (token ∷ tokens) = (starts_with token "dpt:" ≡ false) × HasNoDport tokens

sliced : (port : String) → slice (append "dpt:" port) 4 (len (append "dpt:" port)) ≡ port
sliced port =
    ap (slice (append "dpt:" port) 4) (len-append "dpt:" port) ∙ slice-append_right "dpt:" port

only_prefix : (port : String) → (port == "") ≡ false → (append "dpt:" port == "dpt:") ≡ false
only_prefix port full = elim (Bool-cases (append "dpt:" port == "dpt:")) [
  | inl same ↦ ground (
    arith,
    full,
    ==_iff {A = String} port "",
    append_cancel_left "dpt:" port "" ((==_iff {A = String} (append "dpt:" port) "dpt:").0 same),
  )
  | inr other ↦ other
]

dport_at-here :
    (port : String) (after : List String)
    → (port == "") ≡ false
    → dport_at (append "dpt:" port) after ≡ some port
unfolding dport_at
dport_at-here port [] full =
    rw (only_prefix port full) (rw (starts_with-append "dpt:" port) (ap some (sliced port)))
dport_at-here port (next ∷ after) full =
    rw (only_prefix port full) (rw (starts_with-append "dpt:" port) (ap some (sliced port)))

not_dport : (token : String) → starts_with token "dpt:" ≡ false → (token == "dpt:") ≡ false
not_dport token other = elim (Bool-cases (token == "dpt:")) [
  | inl same ↦
      let at : token ≡ "dpt:" = (==_iff {A = String} token "dpt:").0 same in
      absurd (cc (other, ap (λ s. starts_with s "dpt:") at))
  | inr differs ↦ differs
]

dport_at-skip :
    (token : String) (after : List String)
    → starts_with token "dpt:" ≡ false
    → dport_at token after ≡ none
unfolding dport_at
dport_at-skip token [] other = rw (not_dport token other) (rw other refl)
dport_at-skip token (next ∷ after) other = rw (not_dport token other) (rw other refl)

find_dport-here :
    (port : String) (before after : List String)
    → (port == "") ≡ false
    → HasNoDport before
    → find_dport (before ++ (append "dpt:" port) ∷ after) ≡ port
unfolding find_dport
find_dport-here port [] after full skipped = rw (dport_at-here port after full, find_dport) refl
find_dport-here port (token ∷ before) after full skipped =
    rw (dport_at-skip token (before ++ (append "dpt:" port) ∷ after) skipped.0, find_dport)
      (find_dport-here port before after full skipped.1)

longer : (s t : String) (n : ℕ) → len s ≡ suc (n + len t) → (s == t) ≡ false
longer s t n more = elim (Bool-cases (s == t)) [
  | inl same ↦
      let at : len s ≡ len t = ap len ((==_iff {A = String} s t).0 same) in
      absurd (omega (arith, more, at))
  | inr other ↦ other
]

masked_full : (ip bits : String) → (append ip (append "/" bits) == "") ≡ false
masked_full ip bits =
    longer (append ip (append "/" bits)) "" (len ip + len bits)
      (len-append ip (append "/" bits) ∙ ap (λ k. len ip + k) (len-append "/" bits) ∙ omega arith)

masked_other :
    (ip bits rest : String) → (append (append ip (append "/" bits)) rest == append ip rest) ≡ false
masked_other ip bits rest =
    longer (append (append ip (append "/" bits)) rest) (append ip rest) (len bits) (
      rw
        (
          len-append (append ip (append "/" bits)) rest,
          len-append ip (append "/" bits),
          len-append "/" bits,
          len-append ip rest,
        )
        (omega arith))

module _ (text : TextCalls) where
  keyed_stats-full :
      (stats : SnatRuleStats) (protocol destination : String) (extra : List String) (port : String)
      → (protocol == "") ≡ false
      → (destination == "") ≡ false
      → (port == "") ≡ false
      → extract_dport text extra ≡ port
      → keyed_stats text stats protocol destination extra
        ≡ some (append destination (append ":" (append port (append "/" protocol))), stats)
  unfolding keyed_stats
  keyed_stats-full stats protocol destination extra port named addressed full found =
      rw named (rw addressed (rw found (rw full refl)))

  -- Where go-iptables reports a rule's counters in a row that names its protocol, which is not empty,
  -- and its backend's address followed by a slash and the prefix length, and whose options have `dpt:`
  -- and the backend's port as the first token that begins so, the row is read as those counters under a
  -- key with the prefix length, which is not the rule's key.
  pub parse_snat_stats_row-other_key :
      (r : SnatRule) (stats : SnatRuleStats)
      (pkts bytes target opt input output source bits options : String) (before after : List String)
      → text.scan_uint64 pkts ≡ some stats.packets
      → text.scan_uint64 bytes ≡ some stats.bytes
      → (r.protocol == "") ≡ false
      → HasNoDport before
      → text.fields options ≡ before ++ (append "dpt:" (itoa r.backend_port)) ∷ after
      → let destination = append r.backend_ip (append "/" bits) in
        let key =
          append destination (append ":" (append (itoa r.backend_port) (append "/" r.protocol))) in
        (parse_snat_stats_row text (
            pkts ∷ bytes ∷ target ∷ r.protocol ∷ opt ∷ input ∷ output ∷ source ∷ destination
            ∷ options ∷ [])
          ≡ some (key, stats))
        × ((key == snat_rule_key r) ≡ false)
  unfolding parse_snat_stats_row keyed_stats extract_dport snat_rule_key
  parse_snat_stats_row-other_key r stats pkts bytes target opt input output source bits options
        before after p b protocol skipped tokens =
      let destination = append r.backend_ip (append "/" bits) in
      (
        rw (p, parse_snat_stats_row)
            (rw (b, parse_snat_stats_row)
              (keyed_stats-full stats r.protocol destination (options ∷ []) (itoa r.backend_port)
                protocol (masked_full r.backend_ip bits) (itoa-nonempty r.backend_port)
                (ap find_dport tokens
                  ∙ find_dport-here (itoa r.backend_port) before after
                      (itoa-nonempty r.backend_port) skipped))),
        masked_other r.backend_ip bits
            (append ":" (append (itoa r.backend_port) (append "/" r.protocol))),
      )
