-- ===== src/Healthcheck/Thresholds.antt =====
-- handleCheckResult: when a run of results marks a backend unhealthy or healthy again.
use Prim.Native.Nat.{suc}
use ezlb.Shared.{ℕ, ◌≡◌, ◌∙◌, inl, inr, String, Bool, true, false, some, List, [], ◌∷◌, arith}
use ezlb.Shared.Eq.{◌==◌, string_eq, ==_iff}
use ezlb.Shared.GoMap.{lookup, lookup-insert}
use ezlb.Shared.Int.{is_nonpositive}
use ezlb.Shared.Tests.{if◌then◌else◌, Option-cases}
use ezlb.Std.{Std}
use ezlb.Config.{HealthCheckConfig}
use ezlb.Config.HealthCheck.{get_fail_count, get_rise_count}
use ezlb.Healthcheck.{
  ServiceCheckConfig, BackendStatus, Manager, is_healthy, at_least, check_failed, check_succeeded,
  bool_neq, handle_check_result,
}
use ezlb.Healthcheck.Update.{enabled_check}

-- The number of latest results that all failed, or all succeeded. A history is a list with the
-- latest result first, `true` for a failure.
abbrev pub failing : List Bool → ℕ
failing [] = 0
failing (true ∷ history) = suc (failing history)
failing (false ∷ history) = 0

abbrev pub passing : List Bool → ℕ
passing [] = 0
passing (true ∷ history) = 0
passing (false ∷ history) = suc (passing history)

-- What the results of a history do to a status.
abbrev pub replay : ServiceCheckConfig → List Bool → BackendStatus → BackendStatus
replay c [] s = s
replay c (true ∷ history) s = check_failed c (replay c history s)
replay c (false ∷ history) s = check_succeeded c (replay c history s)

-- The manager after the results of a history for one address.
unfoldable pub results : String → ServiceCheckConfig → List Bool → Manager → Manager
results address c [] m = m
results address c (failed ∷ history) m =
    (handle_check_result address failed c (results address c history m)).0

replay-counts :
    (c : ServiceCheckConfig) (history : List Bool) (s : BackendStatus)
    → s.consecutive_fails ≡ 0
    → s.consecutive_ok ≡ 0
    → ((replay c history s).consecutive_fails ≡ failing history)
      × ((replay c history s).consecutive_ok ≡ passing history)
unfolding check_failed check_succeeded
replay-counts c [] s p q = (p, q)
replay-counts c (true ∷ history) s p q =
    let ih = replay-counts c history s p q in (ground (arith, ih), ground (arith, ih))
replay-counts c (false ∷ history) s p q =
    let ih = replay-counts c history s p q in (ground (arith, ih), ground (arith, ih))

handled :
    (address : String) (failed : Bool) (c : ServiceCheckConfig) (m : Manager) (s : BackendStatus)
    → lookup address m.statuses ≡ some s
    → lookup address (handle_check_result address failed c m).0.statuses
      ≡ some (if failed then check_failed c s else check_succeeded c s)
unfolding handle_check_result
handled address failed c m s p =
    rw (p, handle_check_result)
      (lookup-insert address address _ _ ∙ ground (arith, ==_iff {A = String} address address))

lookup-results :
    (address : String) (c : ServiceCheckConfig) (history : List Bool) (m : Manager)
    (s : BackendStatus)
    → lookup address m.statuses ≡ some s
    → lookup address (results address c history m).statuses ≡ some (replay c history s)
unfolding results
lookup-results address c [] m s p = p
lookup-results address c (true ∷ history) m s p =
    handled address true c (results address c history m) _ (lookup-results address c history m s p)
lookup-results address c (false ∷ history) m s p =
    handled address false c (results address c history m) _ (lookup-results address c history m s p)

-- The counts that a check starts with are positive, whatever the configuration says.
get_fail_count-positive : (h : HealthCheckConfig) → is_nonpositive (get_fail_count h) ≡ false
unfolding get_fail_count
get_fail_count-positive h = ground arith

get_rise_count-positive : (h : HealthCheckConfig) → is_nonpositive (get_rise_count h) ≡ false
unfolding get_rise_count
get_rise_count-positive h = ground arith

-- One more result decides by the length of the latest run.
replay-hysteresis :
    (c : ServiceCheckConfig) (failed : Bool) (history : List Bool) (s : BackendStatus)
    → s.consecutive_fails ≡ 0
    → s.consecutive_ok ≡ 0
    → is_nonpositive c.fail_count ≡ false
    → is_nonpositive c.rise_count ≡ false
    → (replay c (failed ∷ history) s).healthy ≡ (
        if at_least (failing (failed ∷ history)) c.fail_count
        then false
        else if at_least (passing (failed ∷ history)) c.rise_count
        then true
        else (replay c history s).healthy)
unfolding check_failed check_succeeded
replay-hysteresis c true history s p q f r =
    let (counts, counts') = replay-counts c history s p q in ground (arith, counts, counts', f, r)
replay-hysteresis c false history s p q f r =
    let (counts, counts') = replay-counts c history s p q in ground (arith, counts, counts', f, r)

-- For a backend with a status whose counters are 0, checked as any health check configuration says,
-- and every history of results: with one more result the backend is unhealthy if the latest
-- GetFailCount results failed, healthy if the latest GetRiseCount succeeded, and else as before.
pub is_healthy-hysteresis :
    (std : Std) (h : HealthCheckConfig) (address : String) (m : Manager) (s : BackendStatus)
    → lookup address m.statuses ≡ some s
    → s.consecutive_fails ≡ 0
    → s.consecutive_ok ≡ 0
    → (failed : Bool) (history : List Bool)
    → let c = enabled_check std h in
      is_healthy address (results address c (failed ∷ history) m) ≡ (
        if at_least (failing (failed ∷ history)) (get_fail_count h)
        then false
        else if at_least (passing (failed ∷ history)) (get_rise_count h)
        then true
        else is_healthy address (results address c history m))
unfolding is_healthy enabled_check
is_healthy-hysteresis std h address m s p q q' failed history =
    let c = enabled_check std h in
    rw (lookup-results address c (failed ∷ history) m s p) (
      rw (lookup-results address c history m s p) (
        replay-hysteresis c failed history s q q' (get_fail_count-positive h)
          (get_rise_count-positive h)))

-- A result changes the status of its own address alone, and onChange is called exactly when what
-- IsHealthy answers for that address changes.
pub handle_check_result-on_change :
    (address : String) (failed : Bool) (c : ServiceCheckConfig) (m : Manager) (j : String)
    → let r = handle_check_result address failed c m in
      (r.1 ≡ bool_neq (is_healthy address m) (is_healthy address r.0))
      × (lookup j r.0.statuses
          ≡ (if address == j then lookup address r.0.statuses else lookup j m.statuses))
unfolding handle_check_result is_healthy
handle_check_result-on_change address failed c m j =
    elim (Option-cases (lookup address m.statuses)) [
      | inl absent ↦
          rw (absent, handle_check_result) (ground (arith, absent, ==_iff {A = String} address j))
      | inr (s, there) ↦
          let s' = if failed then check_failed c s else check_succeeded c s in
          rw (there, handle_check_result)
            (ground (
              arith,
              there,
              lookup-insert address j s' m.statuses,
              lookup-insert address address s' m.statuses,
              ==_iff {A = String} address j,
              ==_iff {A = String} address address,
            ))
    ]
