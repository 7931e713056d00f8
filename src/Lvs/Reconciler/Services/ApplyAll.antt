-- ===== src/Lvs/Reconciler/Services/ApplyAll.antt =====
-- The whole loop over the desired services: what it leaves under every key.
use mathlib.Core.Path.{subst}
use ezlb.Shared.{◌≡◌, refl, ◌∙◌, String, Bool, true, none, some, [], ◌∷◌, arith}
use ezlb.Shared.Eq.{◌==◌, ==_iff}
use ezlb.Shared.GoMap.{GoMap, lookup, HasDistinctKeys}
use ezlb.Shared.Index.{IsKeyed, IsKeyed-tail}
use ezlb.Shared.Order.{RangeOrder}
use ezlb.Shared.Result.{for_each, cons_error}
use ezlb.Shared.Tests.{if◌then◌else◌}
use ezlb.Std.{Std}
use ezlb.Snat.{SnatManager}
use ezlb.Lvs.Types.{Service, ServiceKey, DestinationKey, service_key_eq}
use ezlb.Lvs.Handle.Fake.{FakeHandle, make_fake_service_key}
use ezlb.Lvs.Handle.Laws.{IsWellFormed}
use ezlb.Lvs.Reconciler.{DesiredService, World}
use ezlb.Lvs.Reconciler.Destinations.Converge.{destination_after}
use ezlb.Lvs.Reconciler.Fake.{fake_env}
use ezlb.Lvs.Reconciler.Services.{apply_service}
use ezlb.Lvs.Reconciler.Services.Apply.{
  destination_at, service_settled, desired_at, IsApplied, apply_service_ok,
}

module _ (std : Std) where
  open std use {IP}

  -- The key that the kernel gives a desired service.
  abbrev pub kernel_key : DesiredService IP → ServiceKey
  kernel_key d = make_fake_service_key std d.service

  module _ {N : Type 0} where
    pub record IsAppliedAll (ds : GoMap ServiceKey (DesiredService IP))
        (w w' : World (FakeHandle IP) N) : Type 0 where
      pub well_formed : IsWellFormed std w'.kernel
      pub services :
          (j : ServiceKey)
          → lookup j w'.kernel.services ≡ elim (lookup j ds) [
            | none ↦ lookup j w.kernel.services
            | some d ↦ some (service_settled std d.service (lookup j w.kernel.services))
          ]
      pub destinations :
          (j : ServiceKey) (dk : DestinationKey)
          → destination_at std j dk w'.kernel ≡ elim (lookup j ds) [
            | none ↦ destination_at std j dk w.kernel
            | some d ↦
                destination_after std (desired_at std d dk) (destination_at std j dk w.kernel)
          ]
      pub managed :
          (j : ServiceKey)
          → lookup j w'.managed
            ≡ elim (lookup j ds) [ none ↦ lookup j w.managed | some d ↦ some true ]
      pub snat : w'.snat ≡ w.snat

    IsAppliedAll-nil :
        (w : World (FakeHandle IP) N) → IsWellFormed std w.kernel → IsAppliedAll [] w w
    unfolding lookup
    IsAppliedAll-nil w wf = record {
      well_formed = wf;
      services = λ j. refl;
      destinations = λ j dk. refl;
      managed = λ j. refl;
      snat = refl;
    }

    -- A round at a key that the other rounds do not meet, and then those.
    IsAppliedAll-cons :
        (key : ServiceKey) (d : DesiredService IP) (ds : GoMap ServiceKey (DesiredService IP))
        (w w1 w2 : World (FakeHandle IP) N)
        → lookup key ds ≡ none
        → IsApplied std key d w w1
        → IsAppliedAll ds w1 w2
        → IsAppliedAll ((key, d) ∷ ds) w w2
    unfolding lookup
    IsAppliedAll-cons key d ds w w1 w2 fresh first rest = record {
      well_formed = rest.well_formed;
      services = λ j.
          rest.services j ∙ ground (arith, first.services j, ==_iff {A = ServiceKey} key j, fresh);
      destinations = λ j dk.
          rest.destinations j dk
          ∙ ground (arith, first.destinations j dk, ==_iff {A = ServiceKey} key j, fresh);
      managed = λ j.
          rest.managed j ∙ ground (arith, first.managed j, ==_iff {A = ServiceKey} key j, fresh);
      snat = rest.snat ∙ first.snat;
    }

    module _ (o : RangeOrder) (is_healthy : String → Bool) {F : Type 0} (sm : SnatManager F N) where
      apply_one :
          (actual_map : GoMap ServiceKey (Service IP)) (key : ServiceKey) (d : DesiredService IP)
          (w : World (FakeHandle IP) N)
          → IsWellFormed std w.kernel
          → kernel_key d ≡ key
          → lookup key actual_map ≡ lookup key w.kernel.services
          → let r = apply_service std (fake_env std o is_healthy sm) actual_map (key, d) w in
            (r.1 ≡ none) × IsApplied std key d w r.0
      apply_one actual_map key d w wf own =
          subst
            (λ q.
              lookup q actual_map ≡ lookup q w.kernel.services
              → let r = apply_service std (fake_env std o is_healthy sm) actual_map (q, d) w in
                (r.1 ≡ none) × IsApplied std q d w r.0)
            own (apply_service_ok std o is_healthy sm actual_map d w wf)

      pub apply_services_ok :
          (actual_map : GoMap ServiceKey (Service IP)) (ds : GoMap ServiceKey (DesiredService IP))
          (w : World (FakeHandle IP) N)
          → IsWellFormed std w.kernel
          → HasDistinctKeys ds
          → IsKeyed kernel_key ds
          → ((j : ServiceKey) (d : DesiredService IP)
              → lookup j ds ≡ some d
              → lookup j actual_map ≡ lookup j w.kernel.services)
          → let r = for_each (apply_service std (fake_env std o is_healthy sm) actual_map) ds w in
            (r.1 ≡ []) × IsAppliedAll ds w r.0
      unfolding for_each lookup
      apply_services_ok actual_map [] w wf distinct keyed agree = (refl, IsAppliedAll-nil w wf)
      apply_services_ok actual_map ((key, d) ∷ ds) w wf distinct keyed agree =
          let here : (if key == key then some d else lookup key ds) ≡ some d =
            ground (arith, ==_iff {A = ServiceKey} key key) in
          let (no_error, first) =
            apply_one actual_map key d w wf (keyed key d here) (agree key d here) in
          let w1 = (apply_service std (fake_env std o is_healthy sm) actual_map (key, d) w).0 in
          let (no_errors, rest) =
            apply_services_ok actual_map ds w1 first.well_formed distinct.1
              (IsKeyed-tail kernel_key key d ds distinct keyed)
              (λ j d' p. ground (
                arith,
                first.services j,
                agree j d',
                distinct.0,
                p,
                ==_iff {A = ServiceKey} key j,
              )) in
          (
            rw (no_error, cons_error) no_errors,
            IsAppliedAll-cons key d ds w w1 _ distinct.0 first rest,
          )
