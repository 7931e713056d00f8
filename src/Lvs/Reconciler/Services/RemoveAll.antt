-- ===== src/Lvs/Reconciler/Services/RemoveAll.antt =====
-- The whole deleting loops of Reconcile and of Cleanup, over the in-memory handle.
use mathlib.Core.Path.{subst}
use ezlb.Shared.{◌≡◌, refl, ◌∙◌, sym, inl, inr, String, Bool, not, ◌&&◌, none, some, [], ◌∷◌, arith}
use ezlb.Shared.Eq.{◌==◌, ==_iff}
use ezlb.Shared.GoMap.{GoMap, lookup, HasDistinctKeys, lookup-delete}
use ezlb.Shared.Index.{IsKeyed, IsKeyed-tail}
use ezlb.Shared.Order.{RangeOrder}
use ezlb.Shared.Result.{for_each, cons_error}
use ezlb.Shared.Tests.{if◌then◌else◌, is_some, Option-cases}
use ezlb.Std.{Std}
use ezlb.Snat.{SnatManager}
use ezlb.Lvs.Types.{Service, ServiceKey, service_key_eq}
use ezlb.Lvs.Handle.Fake.{FakeHandle, make_fake_service_key}
use ezlb.Lvs.Handle.Laws.{IsWellFormed}
use ezlb.Lvs.Reconciler.{DesiredService, World}
use ezlb.Lvs.Reconciler.Fake.{fake_env}
use ezlb.Lvs.Reconciler.Services.{drop_service, remove_service, cleanup_service}
use ezlb.Lvs.Reconciler.Services.Remove.{
  IsDropped, IsDropped-none, IsDropped-trans, drop_service_ok, remove_service_ok,
}

module _ (std : Std) (o : RangeOrder) (is_healthy : String → Bool) {F N : Type 0}
    (sm : SnatManager F N) where
  open std use {IP}

  remove_one :
      (dm : GoMap ServiceKey (DesiredService IP)) (key : ServiceKey) (svc : Service IP)
      (w : World (FakeHandle IP) N)
      → IsWellFormed std w.kernel
      → make_fake_service_key std svc ≡ key
      → (lookup key dm ≡ none → (x : Service IP) × (lookup key w.kernel.services ≡ some x))
      → let r = remove_service std (fake_env std o is_healthy sm) dm (key, svc) w in
        (r.1 ≡ none) × IsDropped std (λ j. key == j && not (is_some (lookup j dm))) w r.0
  remove_one dm key svc w wf own =
      subst
        (λ q.
          (lookup q dm ≡ none → (x : Service IP) × (lookup q w.kernel.services ≡ some x))
          → let r = remove_service std (fake_env std o is_healthy sm) dm (q, svc) w in
            (r.1 ≡ none) × IsDropped std (λ j. q == j && not (is_some (lookup j dm))) w r.0)
        own (remove_service_ok std o is_healthy sm dm svc w wf)

  pub remove_services_ok :
      (dm : GoMap ServiceKey (DesiredService IP)) (visited : GoMap ServiceKey (Service IP))
      (w : World (FakeHandle IP) N)
      → IsWellFormed std w.kernel
      → HasDistinctKeys visited
      → IsKeyed (make_fake_service_key std) visited
      → ((j : ServiceKey) (s : Service IP)
          → lookup j visited ≡ some s
          → lookup j dm ≡ none
          → (x : Service IP) × (lookup j w.kernel.services ≡ some x))
      → let r = for_each (remove_service std (fake_env std o is_healthy sm) dm) visited w in
        (r.1 ≡ [])
        × IsDropped std (λ j. is_some (lookup j visited) && not (is_some (lookup j dm))) w r.0
  unfolding for_each lookup
  remove_services_ok dm [] w wf distinct keyed there = (refl, IsDropped-none std _ w wf (λ j. refl))
  remove_services_ok dm ((key, s) ∷ visited) w wf distinct keyed there =
      let here : (if key == key then some s else lookup key visited) ≡ some s =
        ground (arith, ==_iff {A = ServiceKey} key key) in
      let (no_error, first) = remove_one dm key s w wf (keyed key s here) (there key s here) in
      let w1 = (remove_service std (fake_env std o is_healthy sm) dm (key, s) w).0 in
      let (no_errors, rest) =
        remove_services_ok dm visited w1 first.well_formed distinct.1
          (IsKeyed-tail (make_fake_service_key std) key s visited distinct keyed)
          (λ j s' p gone.
            let (x, at) =
              there j s' (ground (arith, distinct.0, p, ==_iff {A = ServiceKey} key j)) gone in
            (
              x,
              ground (arith, first.services j, at, distinct.0, p, ==_iff {A = ServiceKey} key j),
            )) in
      (
        rw (no_error, cons_error) no_errors,
        IsDropped-trans std _ _ _ w w1 _ first rest
            (λ j. ground (arith, ==_iff {A = ServiceKey} key j, distinct.0)),
      )

  cleanup_one :
      (actual_map : GoMap ServiceKey (Service IP)) (key : ServiceKey) (b : Bool)
      (w : World (FakeHandle IP) N)
      → IsWellFormed std w.kernel
      → IsKeyed (make_fake_service_key std) actual_map
      → lookup key actual_map ≡ lookup key w.kernel.services
      → let r = cleanup_service std (fake_env std o is_healthy sm) actual_map (key, b) w in
        (r.1 ≡ none) × IsDropped std (λ j. key == j) w r.0
  unfolding cleanup_service
  cleanup_one actual_map key b w wf keyed same = elim (Option-cases (lookup key actual_map)) [
    | inl absent ↦
        rw (absent, cleanup_service)
          (
            refl,
            record {
              well_formed = wf;
              services = λ j. ground (arith, same, absent, ==_iff {A = ServiceKey} key j);
              destinations = λ j dk.
                  ground (arith, same, absent, wf.paired key, ==_iff {A = ServiceKey} key j);
              managed = λ j. lookup-delete key j w.managed;
              snat = refl;
            },
          )
    | inr (svc, there) ↦
        rw (there, cleanup_service)
          (subst
            (λ q.
              lookup q w.kernel.services ≡ some svc
              → let r = drop_service std (fake_env std o is_healthy sm) q svc w in
                (r.1 ≡ none) × IsDropped std (λ j. q == j) w r.0)
            (keyed key svc there) (drop_service_ok std o is_healthy sm svc svc w wf)
            (sym same ∙ there))
  ]

  pub cleanup_services_ok :
      (actual_map : GoMap ServiceKey (Service IP)) (visited : GoMap ServiceKey Bool)
      (w : World (FakeHandle IP) N)
      → IsWellFormed std w.kernel
      → HasDistinctKeys visited
      → IsKeyed (make_fake_service_key std) actual_map
      → ((j : ServiceKey) (b : Bool)
          → lookup j visited ≡ some b
          → lookup j actual_map ≡ lookup j w.kernel.services)
      → let r =
          for_each (cleanup_service std (fake_env std o is_healthy sm) actual_map) visited w in
        (r.1 ≡ []) × IsDropped std (λ j. is_some (lookup j visited)) w r.0
  unfolding for_each lookup
  cleanup_services_ok actual_map [] w wf distinct keyed same =
      (refl, IsDropped-none std _ w wf (λ j. refl))
  cleanup_services_ok actual_map ((key, b) ∷ visited) w wf distinct keyed same =
      let here : (if key == key then some b else lookup key visited) ≡ some b =
        ground (arith, ==_iff {A = ServiceKey} key key) in
      let (no_error, first) = cleanup_one actual_map key b w wf keyed (same key b here) in
      let w1 = (cleanup_service std (fake_env std o is_healthy sm) actual_map (key, b) w).0 in
      let (no_errors, rest) =
        cleanup_services_ok actual_map visited w1 first.well_formed distinct.1 keyed (λ j b' p.
          ground
            (arith, first.services j, same j b', distinct.0, p, ==_iff {A = ServiceKey} key j)) in
      (
        rw (no_error, cons_error) no_errors,
        IsDropped-trans std _ _ _ w w1 _ first rest
            (λ j. ground (arith, ==_iff {A = ServiceKey} key j, distinct.0)),
      )
