-- ===== src/Server/KernelParams.antt =====
-- pkg/server/kernel_params.go: the kernel parameters that the server checks when it starts. `read` is
-- os.ReadFile followed by strings.TrimSpace, `replace_dots` strings.ReplaceAll of dots by slashes.
use Prim.Native.String.{◌++◌}
use ezlb.Shared.{
  ◌≡◌, ◌∙◌, inl, inr, String, Bool, true, false, ◌&&◌, ◌||◌, Option, none, some, List, [], ◌∷◌,
  arith, refl,
}
use ezlb.Shared.Eq.{◌==◌, string_eq, ==_iff}
use ezlb.Shared.Order.{RangeOrder}
use ezlb.Shared.Result.{Result, ok, err, Result-cases}
use ezlb.Shared.Tests.{if◌then◌else◌}

-- `expecteds` is a set, `none` where it is nil.
pub record KernelParamCheck : Type 0 where
  pub expecteds : Option (List String)
  pub name : String
  pub expected : String

abbrev pub kernel_param_checks : List KernelParamCheck
kernel_param_checks =
    record { name = "net.ipv4.ip_forward"; expected = "1"; expecteds = none }
    ∷ record { name = "net.ipv4.vs.conntrack"; expected = "1"; expecteds = none }
    ∷ record {
      name = "net.ipv4.conf.all.rp_filter";
      expected = "";
      expecteds = some ("0" ∷ "2" ∷ []);
    }
    ∷ record {
      name = "net.ipv4.conf.default.rp_filter";
      expected = "";
      expecteds = some ("0" ∷ "2" ∷ []);
    }
    ∷ []

abbrev pub has_value : String → List String → Bool
has_value actual [] = false
has_value actual (v ∷ values) = if v == actual then true else has_value actual values

unfoldable pub is_valid : KernelParamCheck → String → Bool
is_valid c actual = elim c.expecteds [
  | some values ↦ has_value actual values
  | none ↦ actual == c.expected
]

abbrev pub join_or : List String → String
join_or [] = ""
join_or (s ∷ []) = s
join_or (s ∷ t ∷ rest) = s ++ " or " ++ join_or (t ∷ rest)

unfoldable pub expected_string : RangeOrder → KernelParamCheck → String
expected_string o c = elim c.expecteds [
  | some values ↦ join_or (o.arrange values)
  | none ↦ c.expected
]

-- What the preflight logs.
pub data PreflightEntry (E : Type 0) : Type 0 where
  read_failed : String → E → PreflightEntry E
  mismatch : String → String → String → PreflightEntry E
  passed : PreflightEntry E

has_value-two :
    (actual : String) → has_value actual ("0" ∷ "2" ∷ []) ≡ (actual == "0" || actual == "2")
has_value-two actual = ground (
  arith,
  ==_iff {A = String} "0" actual,
  ==_iff {A = String} actual "0",
  ==_iff {A = String} "2" actual,
  ==_iff {A = String} actual "2",
)

module _ {E : Type 0} (read : String → Result E String) (replace_dots : String → String)
    (o : RangeOrder) where
  unfoldable pub kernel_param_path : String → String
  kernel_param_path name = "/proc/sys/" ++ replace_dots name

  -- The loop of logKernelParamPreflight, with its variable allMatched, and the line after it.
  unfoldable pub log_checks : List KernelParamCheck → Bool → List (PreflightEntry E)
  log_checks [] true = passed ∷ []
  log_checks [] false = []
  log_checks (c ∷ checks) all_matched =
      let going_on = log_checks checks all_matched in
      let failing = log_checks checks false in
      elim (read (kernel_param_path c.name)) [
        | err e ↦ read_failed c.name e ∷ failing
        | ok actual ↦
            if is_valid c actual
            then going_on
            else mismatch c.name (expected_string o c) actual ∷ failing
      ]

  -- logKernelParamPreflight on Linux
  unfoldable pub log_kernel_param_preflight : List (PreflightEntry E)
  log_kernel_param_preflight = log_checks kernel_param_checks true

  -- The parameter can be read and has an allowed value.
  abbrev pub is_matched : KernelParamCheck → Bool
  is_matched c = elim (read (kernel_param_path c.name)) [
    | err e ↦ false
    | ok actual ↦ is_valid c actual
  ]

  abbrev pub all_matched : List KernelParamCheck → Bool
  all_matched [] = true
  all_matched (c ∷ checks) = is_matched c && all_matched checks

  abbrev pub has_passed : List (PreflightEntry E) → Bool
  has_passed [] = false
  has_passed (passed ∷ entries) = true
  has_passed (entry ∷ entries) = has_passed entries

  has_passed-log_checks :
      (checks : List KernelParamCheck) (all : Bool)
      → has_passed (log_checks checks all) ≡ (all && all_matched checks)
  unfolding log_checks
  has_passed-log_checks [] true = refl
  has_passed-log_checks [] false = refl
  has_passed-log_checks (c ∷ checks) all =
      ground (arith, has_passed-log_checks checks all, has_passed-log_checks checks false)

  -- The parameter can be read, as the value `v`.
  abbrev pub reads : String → String → Bool
  reads name v = elim (read ("/proc/sys/" ++ replace_dots name)) [
    | err e ↦ false
    | ok actual ↦ actual == v
  ]

  is_matched-rp_filter :
      (name : String)
      → is_matched (record { name = name; expected = ""; expecteds = some ("0" ∷ "2" ∷ []) })
        ≡ (reads name "0" || reads name "2")
  unfolding is_valid kernel_param_path
  is_matched-rp_filter name = elim (Result-cases (read ("/proc/sys/" ++ replace_dots name))) [
    | inl (e, failed) ↦ rw (failed, is_matched, reads) refl
    | inr (actual, found) ↦ rw (found, is_matched, reads) (has_value-two actual)
  ]

  -- The preflight reports success exactly where IP forwarding and conntrack for IPVS are read as 1, and
  -- each of the two rp_filter as 0 or 2.
  pub log_kernel_param_preflight-reads : has_passed log_kernel_param_preflight ≡ (
      reads "net.ipv4.ip_forward" "1"
      && reads "net.ipv4.vs.conntrack" "1"
      && (reads "net.ipv4.conf.all.rp_filter" "0" || reads "net.ipv4.conf.all.rp_filter" "2")
      && (reads "net.ipv4.conf.default.rp_filter" "0"
          || reads "net.ipv4.conf.default.rp_filter" "2"))
  unfolding log_kernel_param_preflight is_valid kernel_param_path
  log_kernel_param_preflight-reads =
      has_passed-log_checks kernel_param_checks true
      ∙ ground (
        arith,
        is_matched-rp_filter "net.ipv4.conf.all.rp_filter",
        is_matched-rp_filter "net.ipv4.conf.default.rp_filter",
      )
