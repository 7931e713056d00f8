-- ===== src/Lvs/Reconciler/SnatStep.antt =====
-- reconcileSNAT: it touches the SNAT manager alone, and its rules are always well formed once the
-- desired state has been built.
use ezlb.Shared.{◌≡◌, refl, inl, inr, String, Bool, none, List, [], ◌∷◌, ◌++◌, map, arith}
use ezlb.Shared.GoMap.{GoMap, insert}
use ezlb.Shared.Result.{ok, >>=-eq-ok, map_err-eq-ok, map_err}
use ezlb.Shared.Tests.{Option-cases, Bool-cases}
use ezlb.Std.{Std}
use ezlb.Config.{ServiceConfig, BackendConfig}
use ezlb.Snat.{SnatRule, ForwardRule}
use ezlb.Lvs.Types.{
  Destination, ServiceKey, service_key_eq, config_to_ipvs_destination, config_to_ipvs_service,
  service_key_from_config,
}
use ezlb.Lvs.Reconciler.{DesiredService, World, Env}
use ezlb.Lvs.Reconciler.Build.{
  build_destinations, build_entry, build_desired_state, is_skipped, snat_entry, snat_backends,
  snat_services,
}
use ezlb.Lvs.Reconciler.Run.{install_rules, reconcile_snat}

module _ (std : Std) where
  open std use {IP}

  -- A backend that converts to a destination has rules.
  snat_entry_ok :
      {F : Type 0} (svc : ServiceConfig) (backend : BackendConfig) (dst : Destination IP)
      → config_to_ipvs_destination std backend ≡ ok dst
      → (r : SnatRule × ForwardRule) × (snat_entry std {F = F} svc backend ≡ ok r)
  unfolding config_to_ipvs_destination snat_entry
  snat_entry_ok svc backend dst p = elim (Option-cases (std.split_host_port backend.address)) [
    | inl bad ↦ absurd (ground (arith, bad, p))
    | inr ((host, port), e) ↦ elim (Option-cases (std.atoi port)) [
      | inl bad ↦ absurd (ground (arith, e, bad, p))
      | inr (n, e') ↦ rw e (rw e' (_, refl))
    ]
  ]

  snat_backends_ok :
      {F : Type 0} (is_healthy : String → Bool) (svc : ServiceConfig)
      (backends : List BackendConfig) (dsts : List (Destination IP))
      → build_destinations std is_healthy svc backends ≡ ok dsts
      → (rs : List (SnatRule × ForwardRule)) × (snat_backends std {F = F} is_healthy svc backends
          ≡ ok rs)
  unfolding build_destinations snat_backends
  snat_backends_ok is_healthy svc [] dsts p = ([], refl)
  snat_backends_ok {F} is_healthy svc (backend ∷ backends) dsts p =
      elim (Bool-cases (is_skipped std is_healthy svc backend)) [
        | inl skip ↦ rw skip (snat_backends_ok is_healthy svc backends dsts (rw skip at p))
        | inr taken ↦
            let (dst, e1, p1) =
              >>=-eq-ok (map_err _ (config_to_ipvs_destination std backend)) _ (rw taken at p) in
            let (rest, e2, p2) = >>=-eq-ok (build_destinations std is_healthy svc backends) _ p1 in
            let (r, e3) = snat_entry_ok {F = F} svc backend dst (map_err-eq-ok _ _ e1) in
            let (rs, e4) = snat_backends_ok {F = F} is_healthy svc backends rest e2 in
            rw taken (rw e3 (rw e4 (r ∷ rs, refl)))
      ]

  snat_step_ok :
      {G : Type 0} (is_healthy : String → Bool) (svc : ServiceConfig) (configs : List ServiceConfig)
      (rs rs' : List (SnatRule × ForwardRule))
      → snat_backends std {F = G} is_healthy svc svc.backends ≡ ok rs
      → snat_services std {F = G} is_healthy configs ≡ ok rs'
      → (all : List (SnatRule × ForwardRule)) × (snat_services std {F = G} is_healthy
            (svc ∷ configs)
          ≡ ok all)
  unfolding snat_services
  snat_step_ok is_healthy svc configs rs rs' q q' = elim (Bool-cases svc.full_nat) [
    | inl full ↦ (rs ++ rs', ground (arith, full, q, q'))
    | inr plain ↦ (rs', ground (arith, plain, q'))
  ]

  -- Once buildDesiredState has succeeded, no address is left for reconcileSNAT to refuse.
  pub snat_services_ok :
      {E F G : Type 0} (is_healthy : String → Bool) (configs : List ServiceConfig)
      (acc dm : GoMap ServiceKey (DesiredService IP))
      → build_desired_state std {E = E} {F = F} is_healthy configs acc ≡ ok dm
      → (rs : List (SnatRule × ForwardRule)) × (snat_services std {F = G} is_healthy configs
          ≡ ok rs)
  unfolding build_desired_state snat_services build_entry
  snat_services_ok is_healthy [] acc dm p = ([], refl)
  snat_services_ok {G} is_healthy (svc ∷ configs) acc dm p =
      let ((k, d), e, rest) = >>=-eq-ok (build_entry std is_healthy svc) _ p in
      let (s, e1, p1) = >>=-eq-ok (map_err _ (config_to_ipvs_service std svc)) _ e in
      let (k', e2, p2) = >>=-eq-ok (map_err _ (service_key_from_config std svc)) _ p1 in
      let (dsts, e3, p3) =
        >>=-eq-ok (map_err _ (build_destinations std is_healthy svc svc.backends)) _ p2 in
      let (rs, q) =
        snat_backends_ok {F = G} is_healthy svc svc.backends dsts (map_err-eq-ok _ _ e3) in
      let (rs', q') = snat_services_ok {G = G} is_healthy configs (insert k d acc) dm rest in
      snat_step_ok {G = G} is_healthy svc configs rs rs' q q'

  module _ {E F S N : Type 0} (env : Env std E F S N) (configs : List ServiceConfig)
      (w : World S N) where
    -- reconcileSNAT leaves the kernel and the managed set alone.
    pub reconcile_snat_keeps :
        (reconcile_snat std env configs w).0
        ≡ record w { snat = (reconcile_snat std env configs w).0.snat }
    unfolding reconcile_snat install_rules
    reconcile_snat_keeps = ground arith

    -- With rules to install and a manager that does not fail, it returns no error.
    pub reconcile_snat-none :
        (rs : List (SnatRule × ForwardRule))
        → snat_services std {F = F} env.is_healthy configs ≡ ok rs
        → ((rules : List SnatRule) (n : N) → (env.snat_mgr.reconcile rules n).1 ≡ none)
        → ((rules : List ForwardRule) (n : N) → (env.snat_mgr.reconcile_forward rules n).1 ≡ none)
        → (reconcile_snat std env configs w).1 ≡ none
    unfolding reconcile_snat install_rules
    reconcile_snat-none rs p no_error no_error' =
        let one = no_error (map (λ r. r.0) rs) w.snat in
        let two =
          no_error' (map (λ r. r.1) rs) (env.snat_mgr.reconcile (map (λ r. r.0) rs) w.snat).0 in
        ground (arith, p, one, two)

    -- Where neither call fails, the SNAT manager has run both on what is desired.
    pub reconcile_snat-snat :
        (rs : List (SnatRule × ForwardRule))
        → snat_services std {F = F} env.is_healthy configs ≡ ok rs
        → ((rules : List SnatRule) (n : N) → (env.snat_mgr.reconcile rules n).1 ≡ none)
        → ((rules : List ForwardRule) (n : N) → (env.snat_mgr.reconcile_forward rules n).1 ≡ none)
        → (reconcile_snat std env configs w).0.snat
          ≡ (env.snat_mgr.reconcile_forward
              (map (λ r. r.1) rs)
              (env.snat_mgr.reconcile (map (λ r. r.0) rs) w.snat).0).0
    unfolding reconcile_snat install_rules
    reconcile_snat-snat rs p no_error no_error' =
        let one = no_error (map (λ r. r.0) rs) w.snat in
        let two =
          no_error' (map (λ r. r.1) rs) (env.snat_mgr.reconcile (map (λ r. r.0) rs) w.snat).0 in
        ground (arith, p, one, two)
