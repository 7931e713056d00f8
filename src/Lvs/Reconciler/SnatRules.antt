-- ===== src/Lvs/Reconciler/SnatRules.antt =====
-- Which SNAT and FORWARD rules Reconcile asks for, and which it leaves in the in-memory SNAT manager.
use mathlib.Core.List.{Memᴰ}
use mathlib.Core.List.Memᴰ
use mathlib.Core.Path.{subst}
use ezlb.Shared.{
  ◌≡◌, refl, ◌∙◌, ap, sym, inl, inr, String, Bool, true, false, List, [], ◌∷◌, ◌++◌, map, not,
}
use ezlb.Shared.Eq.{string_eq}
use ezlb.Shared.GoMap.{GoMap, lookup, HasDistinctKeys}
use ezlb.Shared.Order.{RangeOrder}
use ezlb.Shared.Result.{ok, ◌>>=◌, >>=-eq-ok, ok-injective}
use ezlb.Shared.Tests.{Bool-cases, if◌then◌else◌}
use ezlb.Std.{Std}
use ezlb.Config.{ServiceConfig, BackendConfig}
use ezlb.Snat.{SnatRule, ForwardRule}
use ezlb.Snat.Fake.{FakeManager, fake_manager, reconcile as reconcile_rules, reconcile_forward}
use ezlb.Snat.Fake.Reconcile.{
  desired_rules, desired_forward, rule_after, forward_after, reconcile-rule_after,
  reconcile_forward-forward_after,
}
use ezlb.Lvs.Types.{ServiceKey, service_key_eq}
use ezlb.Lvs.Handle.Fake.{FakeHandle, FakeError}
use ezlb.Lvs.Handle.Laws.{IsWellFormed}
use ezlb.Lvs.Reconciler.{DesiredService, World}
use ezlb.Lvs.Reconciler.Build.{
  build_desired_state, is_skipped, snat_entry, snat_backends, snat_services,
}
use ezlb.Lvs.Reconciler.Desired.{AllCanonical}
use ezlb.Lvs.Reconciler.Fake.{fake_env}
use ezlb.Lvs.Reconciler.Reconcile.{services_done, reconcile-world, services_done_ok}
use ezlb.Lvs.Reconciler.Healthy.{IsAllowed, is_skipped-IsAllowed}
use ezlb.Lvs.Reconciler.Run.{reconcile}
use ezlb.Lvs.Reconciler.SnatStep.{reconcile_snat-snat}

module _ (std : Std) (o : RangeOrder) (is_healthy : String → Bool) {F : Type 0} where
  -- Over the in-memory handle and the in-memory SNAT manager, where buildDesiredState has returned a
  -- map, every listen address is canonical, handle and manager are well formed, and the rules `rs` are
  -- those that reconcileSNAT collects: Reconcile leaves under each key the SNAT and the FORWARD rule
  -- that the manager's own reconciliation of `rs` describes.
  pub reconcile-snat_rules :
      (configs : List ServiceConfig) (w : World (FakeHandle std.IP) FakeManager)
      (dm : GoMap ServiceKey (DesiredService std.IP)) (rs : List (SnatRule × ForwardRule))
      → build_desired_state std {E = FakeError} {F = F} is_healthy configs [] ≡ ok dm
      → AllCanonical std configs
      → IsWellFormed std w.kernel
      → HasDistinctKeys w.snat.managed
      → HasDistinctKeys w.snat.managed_forward
      → snat_services std {F = F} is_healthy configs ≡ ok rs
      → (j : String)
      → let n =
          (reconcile std (fake_env std o is_healthy (fake_manager o {F = F})) configs w).0.snat in
        (lookup j n.managed
          ≡ rule_after (lookup j (desired_rules (map (λ r. r.0) rs))) (lookup j w.snat.managed))
        × (lookup j n.managed_forward
            ≡ forward_after
                (lookup j (desired_forward (map (λ r. r.1) rs)))
                (lookup j w.snat.managed_forward))
  unfolding reconcile_rules
  reconcile-snat_rules configs w dm rs built canonical wf distinct distinct' collected j =
      let sm = fake_manager o {F = F} in
      let done = services_done std o is_healthy sm configs w dm built canonical wf in
      let kept : done.snat ≡ w.snat =
        (services_done_ok std o is_healthy sm configs w dm built canonical wf).1 in
      let rules = map (λ r. r.0) rs in
      let forwards = map (λ r. r.1) rs in
      let run =
        ap (λ v. v.snat) (reconcile-world std o is_healthy sm configs w dm built canonical wf)
        ∙ reconcile_snat-snat std (fake_env std o is_healthy sm) configs done rs collected
            (λ r n. refl) (λ r n. refl)
        ∙ ap (λ n. reconcile_forward o forwards (reconcile_rules o rules n)) kept in
      let (first, same) = reconcile-rule_after o rules w.snat distinct j in
      let (second, same') =
        reconcile_forward-forward_after o forwards (reconcile_rules o rules w.snat) distinct' j in
      (
        ap (λ n. lookup j n.managed) run ∙ ap (lookup j) same' ∙ first,
        ap (λ n. lookup j n.managed_forward) run ∙ second,
      )

module _ (std : Std) (is_healthy : String → Bool) (F : Type 0) where
  -- The rules of a backend that may be served, of a service with full_nat.
  abbrev pub IsWanted : List ServiceConfig → SnatRule × ForwardRule → Type 0
  IsWanted configs r =
      (svc : ServiceConfig) × Memᴰ svc configs
      × (svc.full_nat ≡ true)
      × (b : BackendConfig) × Memᴰ b svc.backends
      × IsAllowed std is_healthy svc b
      × (snat_entry std {F = F} svc b ≡ ok r)

  snat_backends-IsWanted :
      (svc : ServiceConfig) (backends : List BackendConfig) (rs : List (SnatRule × ForwardRule))
      → snat_backends std {F = F} is_healthy svc backends ≡ ok rs
      → (r : SnatRule × ForwardRule) → Memᴰ r rs
      → (b : BackendConfig) × Memᴰ b backends
        × (is_skipped std is_healthy svc b ≡ false)
        × (snat_entry std {F = F} svc b ≡ ok r)
  unfolding snat_backends
  snat_backends-IsWanted svc [] rs p r m =
      absurd (Memᴰ.not-nil (subst (Memᴰ r) (sym (ok-injective p)) m))
  snat_backends-IsWanted svc (b ∷ bs) rs p r m =
      elim (Bool-cases (is_skipped std is_healthy svc b)) [
        | inl skip ↦
            let (c, at, taken, e) = snat_backends-IsWanted svc bs rs (rw skip at p) r m in
            (c, Memᴰ.tail at, taken, e)
        | inr taken ↦
            let (one, e1, p1) = >>=-eq-ok (snat_entry std {F = F} svc b) _ (rw taken at p) in
            let (rest, e2, p2) = >>=-eq-ok (snat_backends std {F = F} is_healthy svc bs) _ p1 in
            elim (Memᴰ.cases_cons (subst (Memᴰ r) (sym (ok-injective p2)) m)) [
              | inl same ↦ (b, Memᴰ.head refl, taken, e1 ∙ ap ok (sym same))
              | inr later ↦
                  let (c, at, taken', e) = snat_backends-IsWanted svc bs rest e2 r later in
                  (c, Memᴰ.tail at, taken', e)
            ]
      ]

  -- Where reconcileSNAT collects the rules `rs`, each is that of a backend of a service with full_nat
  -- that is healthy or whose service has health_check.enabled false.
  pub snat_services-IsWanted :
      (configs : List ServiceConfig) (rs : List (SnatRule × ForwardRule))
      → snat_services std {F = F} is_healthy configs ≡ ok rs
      → (r : SnatRule × ForwardRule) → Memᴰ r rs
      → IsWanted configs r
  unfolding snat_services
  snat_services-IsWanted [] rs p r m =
      absurd (Memᴰ.not-nil (subst (Memᴰ r) (sym (ok-injective p)) m))
  snat_services-IsWanted (svc ∷ configs) rs p r m = elim (Bool-cases svc.full_nat) [
    | inl full ↦
        let rest = snat_services std {F = F} is_healthy configs in
        let both = snat_backends std {F = F} is_healthy svc svc.backends >>= λ rules.
        rest >>= λ others. ok (rules ++ others) in
        let chosen : both ≡ ok rs = ap (λ c. if not c then rest else both) (sym full) ∙ p in
        let (own, e1, p1) =
          >>=-eq-ok (snat_backends std {F = F} is_healthy svc svc.backends) _ chosen in
        let (others, e2, p2) = >>=-eq-ok (snat_services std {F = F} is_healthy configs) _ p1 in
        elim (Memᴰ.append_cases own (subst (Memᴰ r) (sym (ok-injective p2)) m)) [
          | inl here ↦
              let (b, at, taken, e) = snat_backends-IsWanted svc svc.backends own e1 r here in
              (svc, Memᴰ.head refl, full, b, at, is_skipped-IsAllowed std is_healthy svc b taken, e)
          | inr later ↦
              let (found, at, full', b, at', taken, e) =
                snat_services-IsWanted configs others e2 r later in
              (found, Memᴰ.tail at, full', b, at', taken, e)
        ]
    | inr plain ↦
        let (found, at, full', b, at', taken, e) =
          snat_services-IsWanted configs rs
            (ap
                (λ c.
                  if not c
                  then snat_services std {F = F} is_healthy configs
                  else (snat_backends std {F = F} is_healthy svc svc.backends >>= λ rules.
                      snat_services std {F = F} is_healthy configs >>= λ others.
                      ok (rules ++ others)))
                (sym plain)
              ∙ p)
            r m in
        (found, Memᴰ.tail at, full', b, at', taken, e)
  ]
