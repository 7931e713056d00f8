-- ===== src/Lvs/Reconciler/Healthy.antt =====
-- Which backends buildDesiredState turns into destinations.
use mathlib.Core.List.{Memᴰ}
use mathlib.Core.List.Memᴰ
use mathlib.Core.Path.{subst}
use ezlb.Shared.{
  ◌≡◌, refl, ap, ◌↔◌, ◌⊎◌, inl, inr, arith, String, Bool, false, true, List, [], ◌∷◌, some,
}
use ezlb.Shared.Result.{ok, >>=-eq-ok, map_err-eq-ok, ok-injective, map_err}
use ezlb.Shared.Tests.{Bool-cases}
use ezlb.Std.{Std}
use ezlb.Config.{ServiceConfig, BackendConfig}
use ezlb.Config.HealthCheck.{is_enabled}
use ezlb.Lvs.Types.{Destination, config_to_ipvs_destination}
use ezlb.Lvs.Reconciler.Build.{is_skipped, build_destinations}

module _ (std : Std) (is_healthy : String → Bool) (svc : ServiceConfig) where
  open std use {IP}

  -- The backend is healthy, or the configuration turns the health checks of its service off.
  abbrev pub IsAllowed : BackendConfig → Type 0
  IsAllowed b = (is_healthy b.address ≡ true) ⊎ (svc.health_check.enabled ≡ some false)

  pub is_skipped-IsAllowed :
      (b : BackendConfig) → is_skipped std is_healthy svc b ≡ false → IsAllowed b
  unfolding is_skipped is_enabled
  is_skipped-IsAllowed b taken = elim (Bool-cases (is_healthy b.address)) [
    | inl up ↦ inl up
    | inr down ↦ inr (ground (arith, taken, down))
  ]

  allowed_taken : (b : BackendConfig) → IsAllowed b → is_skipped std is_healthy svc b ≡ false
  unfolding is_skipped is_enabled
  allowed_taken b (inl up) = ground (arith, up)
  allowed_taken b (inr off) = ground (arith, off)

  -- A backend of the list that may be served, and that converts to the destination.
  abbrev pub IsServed : List BackendConfig → Destination IP → Type 0
  IsServed backends dst =
      (b : BackendConfig) × Memᴰ b backends
      × IsAllowed b
      × (config_to_ipvs_destination std b ≡ ok dst)

  IsServed-tail :
      (b : BackendConfig) (bs : List BackendConfig) (dst : Destination IP)
      → IsServed bs dst
      → IsServed (b ∷ bs) dst
  IsServed-tail b bs dst (c, m, taken, e) = (c, Memᴰ.tail m, taken, e)

  IsServed-skip :
      (b : BackendConfig) (bs : List BackendConfig) (dst : Destination IP)
      → is_skipped std is_healthy svc b ≡ true
      → IsServed (b ∷ bs) dst
      → IsServed bs dst
  IsServed-skip b bs dst skip (c, m, taken, e) = elim (Memᴰ.cases_cons m) [
    | inl same ↦ absurd (cc (skip, allowed_taken c taken, ap (is_skipped std is_healthy svc) same))
    | inr rest ↦ (c, rest, taken, e)
  ]

  -- Where buildDesiredState's inner loop returns destinations for a service, they are those of every
  -- backend that is healthy or whose service has health_check.enabled false, and of no other.
  pub build_destinations-IsServed :
      (backends : List BackendConfig) (dsts : List (Destination IP))
      → build_destinations std is_healthy svc backends ≡ ok dsts
      → (dst : Destination IP) → Memᴰ dst dsts ↔ IsServed backends dst
  unfolding build_destinations
  build_destinations-IsServed [] dsts p dst =
      subst (λ ds. Memᴰ dst ds ↔ IsServed [] dst) (ok-injective p)
        (λ m. absurd (Memᴰ.not-nil m), λ s. absurd (Memᴰ.not-nil s.1))
  build_destinations-IsServed (b ∷ bs) dsts p dst =
      elim (Bool-cases (is_skipped std is_healthy svc b)) [
        | inl skip ↦
            let ih = build_destinations-IsServed bs dsts (rw skip at p) dst in
            (λ m. IsServed-tail b bs dst (ih.0 m), λ s. ih.1 (IsServed-skip b bs dst skip s))
        | inr taken ↦
            let (d, e1, p1) =
              >>=-eq-ok (map_err _ (config_to_ipvs_destination std b)) _ (rw taken at p) in
            let (ds, e2, p2) = >>=-eq-ok (build_destinations std is_healthy svc bs) _ p1 in
            let made = map_err-eq-ok _ _ e1 in
            let ih = build_destinations-IsServed bs ds e2 dst in
            subst (λ all. Memᴰ dst all ↔ IsServed (b ∷ bs) dst) (ok-injective p2)
              (
                λ m. elim (Memᴰ.cases_cons m) [
                  | inl same ↦ (b, Memᴰ.head refl, is_skipped-IsAllowed b taken, rw same made)
                  | inr rest ↦ IsServed-tail b bs dst (ih.0 rest)
                ],
                λ (c, m, taken', e). elim (Memᴰ.cases_cons m) [
                  | inl same ↦ Memᴰ.head (cc)
                  | inr rest ↦ Memᴰ.tail (ih.1 (c, rest, taken', e))
                ],
              )
      ]
