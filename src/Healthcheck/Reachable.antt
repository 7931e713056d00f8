-- ===== src/Healthcheck/Reachable.antt =====
-- The runs of the health check manager: any sequence of configuration updates, probe results and
-- stops, each with its own order of `range`.
use ezlb.Shared.{
  ℕ, ◌≡◌, refl, ◌∙◌, inl, inr, String, Bool, true, false, ◌||◌, some, List, [], ◌∷◌, arith,
}
use ezlb.Shared.Eq.{◌==◌, nat_eq, string_eq, ==_iff}
use ezlb.Shared.GoMap.{GoMap, lookup}
use ezlb.Shared.Order.{RangeOrder, lookup-arrange}
use ezlb.Shared.Tests.{if◌then◌else◌, Option-cases}
use ezlb.Std.{Std}
use ezlb.Config.{ServiceConfig}
use ezlb.Healthcheck.{
  BackendStatus, Check, Manager, new_manager, cancel_check, cancel_all, stop, handle_check_result,
}
use ezlb.Healthcheck.Update.{update_targets}
use ezlb.Healthcheck.Consistent.{IsConsistent, holds, new_manager-IsConsistent}
use ezlb.Healthcheck.Consistent.Steps.{ended, lookup-cancel_check}
use ezlb.Healthcheck.Consistent.Update.{
  update_targets-IsConsistent, handle_check_result-IsConsistent,
}

abbrev has_cancel : ℕ → GoMap String BackendStatus → Bool
has_cancel id [] = false
has_cancel id ((a, s) ∷ statuses) = s.cancel == id || has_cancel id statuses

lookup-cancel_all :
    (id : ℕ) (visited : GoMap String BackendStatus) (checks : GoMap ℕ Check)
    → lookup id (cancel_all visited checks)
      ≡ (if has_cancel id visited then ended (lookup id checks) else lookup id checks)
unfolding cancel_all
lookup-cancel_all id [] checks = refl
lookup-cancel_all id ((a, s) ∷ visited) checks =
    lookup-cancel_all id visited (cancel_check s.cancel checks)
    ∙ ground (arith, lookup-cancel_check s.cancel id checks, ==_iff {A = ℕ} s.cancel id)

lookup-has_cancel :
    (a : String) (id : ℕ) (visited : GoMap String BackendStatus)
    → holds id (lookup a visited) ≡ true
    → has_cancel id visited ≡ true
unfolding lookup
lookup-has_cancel a id [] p = absurd (cc)
lookup-has_cancel a id ((b, s) ∷ visited) p =
    ground (arith, p, lookup-has_cancel a id visited, ==_iff {A = String} b a)

-- Stop leaves no status and no check that runs.
pub stop-IsConsistent : (o : RangeOrder) (m : Manager) → IsConsistent m → IsConsistent (stop o m)
unfolding stop lookup
stop-IsConsistent o m ok = record {
  distinct = tt;
  owned = λ a. refl;
  held = λ id. elim (Option-cases (lookup id m.checks)) [
    | inl absent ↦ ground (arith, absent, lookup-cancel_all id (o.arrange m.statuses) m.checks)
    | inr (c, there) ↦ ground (
      arith,
      there,
      ok.held id,
      lookup-cancel_all id (o.arrange m.statuses) m.checks,
      lookup-has_cancel c.address id (o.arrange m.statuses),
      lookup-arrange o m.statuses ok.distinct c.address,
    )
  ];
  fresh = λ id above.
      ground (arith, ok.fresh id above, lookup-cancel_all id (o.arrange m.statuses) m.checks);
}

-- One call of the manager; `result` is a probe of any check, also of one that has been cancelled.
pub data Step (std : Std) : Manager → Manager → Type 1 where
  update :
      {m : Manager} (o : RangeOrder) (services : List ServiceConfig)
      → Step std m (update_targets std o services m)
  result :
      {m : Manager} (id : ℕ) (c : Check) (failed : Bool)
      → lookup id m.checks ≡ some c
      → Step std m (handle_check_result c.address failed c.svc_check m).0
  stopped : {m : Manager} (o : RangeOrder) → Step std m (stop o m)

pub data Reachable (std : Std) : Manager → Type 1 where
  start : Reachable std new_manager
  after : {m m' : Manager} → Reachable std m → Step std m m' → Reachable std m'

Step-IsConsistent : (std : Std) {m m' : Manager} → Step std m m' → IsConsistent m → IsConsistent m'
Step-IsConsistent std (Step.update {m} o services) ok =
    update_targets-IsConsistent std o services m ok
Step-IsConsistent std (Step.result {m} id c failed p) ok =
    handle_check_result-IsConsistent c.address failed c.svc_check m ok
Step-IsConsistent std (Step.stopped {m} o) ok = stop-IsConsistent o m ok

-- In every state that a sequence of calls reaches, each tracked address has one check that runs for
-- it and each check that runs belongs to the status of its address: none is lost, none is left over.
pub Reachable-IsConsistent : (std : Std) (m : Manager) → Reachable std m → IsConsistent m
Reachable-IsConsistent std m Reachable.start = new_manager-IsConsistent
Reachable-IsConsistent std m (Reachable.after {m = before} r step) =
    Step-IsConsistent std step (Reachable-IsConsistent std before r)
