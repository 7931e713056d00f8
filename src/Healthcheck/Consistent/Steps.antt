-- ===== src/Healthcheck/Consistent/Steps.antt =====
-- Starting and stopping one check keep the invariant.
use ezlb.Shared.{ℕ, ◌≡◌, ◌∙◌, inl, inr, String, true, false, Option, none, some, arith}
use ezlb.Shared.Eq.{◌==◌, nat_eq, string_eq, ==_iff}
use ezlb.Shared.GoMap.{
  GoMap, lookup, lookup-insert, lookup-delete, HasDistinctKeys-insert, HasDistinctKeys-delete,
}
use ezlb.Shared.Tests.{if◌then◌else◌, Option-cases}
use ezlb.Healthcheck.{
  ServiceCheckConfig, BackendStatus, Check, Manager, cancel_check, stop_check, start_backend_check,
}
use ezlb.Healthcheck.Consistent.{IsConsistent}

-- What cancelling does to the entry of the check.
abbrev pub ended : Option Check → Option Check
ended none = none
ended (some c) = some (record c { live = false })

pub lookup-cancel_check :
    (id j : ℕ) (checks : GoMap ℕ Check)
    → lookup j (cancel_check id checks)
      ≡ (if id == j then ended (lookup j checks) else lookup j checks)
unfolding cancel_check
lookup-cancel_check id j checks = elim (Option-cases (lookup id checks)) [
  | inl absent ↦ rw (absent, cancel_check) (ground (arith, absent, ==_iff {A = ℕ} id j))
  | inr (c, there) ↦
      rw (there, cancel_check)
        (lookup-insert id j (record c { live = false }) checks
          ∙ ground (arith, there, ==_iff {A = ℕ} id j))
]

module _ (m : Manager) (ok : IsConsistent m) where
  -- Two addresses never share a check.
  same_check :
      (a b : String) (s t : BackendStatus)
      → lookup a m.statuses ≡ some s
      → lookup b m.statuses ≡ some t
      → s.cancel ≡ t.cancel
      → a ≡ b
  same_check a b s t p q shared = elim (Option-cases (lookup s.cancel m.checks)) [
    | inl absent ↦ ground (arith, absent, p, ok.owned a)
    | inr (c, there) ↦ ground (
      arith,
      there,
      p,
      q,
      shared,
      ok.owned a,
      ok.owned b,
      ==_iff {A = String} c.address a,
      ==_iff {A = String} c.address b,
    )
  ]

  pub stop_check-IsConsistent :
      (address : String) (s : BackendStatus)
      → lookup address m.statuses ≡ some s
      → IsConsistent (stop_check address s m)
  unfolding stop_check
  stop_check-IsConsistent address s p = record {
    distinct = HasDistinctKeys-delete address m.statuses ok.distinct;
    owned = λ a. elim (Option-cases (lookup a m.statuses)) [
      | inl absent ↦ ground (arith, absent, lookup-delete address a m.statuses)
      | inr (t, there) ↦ ground (
        arith,
        p,
        there,
        lookup-delete address a m.statuses,
        lookup-cancel_check s.cancel t.cancel m.checks,
        ok.owned a,
        same_check address a s t p there,
        ==_iff {A = String} address a,
        ==_iff {A = ℕ} s.cancel t.cancel,
      )
    ];
    held = λ id. elim (Option-cases (lookup id m.checks)) [
      | inl absent ↦ ground (arith, absent, lookup-cancel_check s.cancel id m.checks)
      | inr (c, there) ↦ ground (
        arith,
        p,
        there,
        lookup-delete address c.address m.statuses,
        lookup-cancel_check s.cancel id m.checks,
        ok.held id,
        ==_iff {A = String} address c.address,
        ==_iff {A = ℕ} s.cancel id,
      )
    ];
    fresh = λ id above. ground (arith, ok.fresh id above, lookup-cancel_check s.cancel id m.checks);
  }

  pub start_backend_check-IsConsistent :
      (address : String) (c : ServiceCheckConfig)
      → lookup address m.statuses ≡ none
      → IsConsistent (start_backend_check address c m)
  unfolding start_backend_check
  start_backend_check-IsConsistent address c p =
      let s : BackendStatus = record {
        cancel = m.next;
        address = address;
        consecutive_fails = 0;
        consecutive_ok = 0;
        healthy = true;
      } in
      let check : Check = record { address = address; svc_check = c; live = true } in
      record {
        distinct = HasDistinctKeys-insert address s m.statuses ok.distinct;
        owned = λ a. elim (Option-cases (lookup a m.statuses)) [
          | inl absent ↦ ground (
            arith,
            absent,
            lookup-insert address a s m.statuses,
            lookup-insert m.next m.next check m.checks,
            ==_iff {A = String} address a,
            ==_iff {A = ℕ} m.next m.next,
          )
          | inr (t, there) ↦ ground (
            arith,
            p,
            there,
            lookup-insert address a s m.statuses,
            lookup-insert m.next t.cancel check m.checks,
            ok.owned a,
            ok.fresh m.next,
            ==_iff {A = String} address a,
            ==_iff {A = ℕ} m.next t.cancel,
          )
        ];
        held = λ id. elim (Option-cases (lookup id m.checks)) [
          | inl absent ↦ ground (
            arith,
            absent,
            lookup-insert m.next id check m.checks,
            lookup-insert address address s m.statuses,
            ==_iff {A = String} address address,
            ==_iff {A = ℕ} m.next id,
          )
          | inr (k, there) ↦ ground (
            arith,
            p,
            there,
            lookup-insert m.next id check m.checks,
            lookup-insert address k.address s m.statuses,
            ok.held id,
            ok.fresh m.next,
            ==_iff {A = String} address k.address,
            ==_iff {A = ℕ} m.next id,
          )
        ];
        fresh = λ id above. ground (
          arith,
          ok.fresh id,
          above,
          lookup-insert m.next id check m.checks,
          ==_iff {A = ℕ} m.next id,
        );
      }
