-- ===== src/Lvs/Reconciler/Services/Remove.antt =====
-- The loops that delete services, in Reconcile and in Cleanup, over the in-memory handle.
use ezlb.Shared.{◌≡◌, refl, ◌∙◌, inl, inr, String, Bool, false, not, ◌&&◌, ◌||◌, none, some, arith}
use ezlb.Shared.Eq.{◌==◌, ==_iff}
use ezlb.Shared.GoMap.{GoMap, lookup, delete, lookup-delete}
use ezlb.Shared.Order.{RangeOrder}
use ezlb.Shared.Tests.{if◌then◌else◌, is_some, Option-cases}
use ezlb.Std.{Std}
use ezlb.Snat.{SnatManager}
use ezlb.Lvs.Types.{Service, ServiceKey, DestinationKey, service_key_eq}
use ezlb.Lvs.Handle.Fake.{FakeHandle, make_fake_service_key, fake_handle}
use ezlb.Lvs.Handle.Effects.{del_service_found}
use ezlb.Lvs.Handle.Laws.{IsWellFormed, drop_both}
use ezlb.Lvs.Manager
use ezlb.Lvs.Reconciler.{DesiredService, World}
use ezlb.Lvs.Reconciler.Fake.{fake_env}
use ezlb.Lvs.Reconciler.Services.{drop_service, remove_service}
use ezlb.Lvs.Reconciler.Services.Apply.{destination_at}

module _ (std : Std) where
  open std use {IP}

  module _ {N : Type 0} where
    -- The services under the keys of `gone` are deleted and no longer managed; all else is as it was.
    pub record IsDropped (gone : ServiceKey → Bool) (w w' : World (FakeHandle IP) N) : Type 0 where
      pub well_formed : IsWellFormed std w'.kernel
      pub services :
          (j : ServiceKey)
          → lookup j w'.kernel.services ≡ (if gone j then none else lookup j w.kernel.services)
      pub destinations :
          (j : ServiceKey) (dk : DestinationKey)
          → destination_at std j dk w'.kernel
            ≡ (if gone j then none else destination_at std j dk w.kernel)
      pub managed :
          (j : ServiceKey) → lookup j w'.managed ≡ (if gone j then none else lookup j w.managed)
      pub snat : w'.snat ≡ w.snat

    pub IsDropped-none :
        (gone : ServiceKey → Bool) (w : World (FakeHandle IP) N)
        → IsWellFormed std w.kernel
        → ((j : ServiceKey) → gone j ≡ false)
        → IsDropped gone w w
    IsDropped-none gone w wf never = record {
      well_formed = wf;
      services = λ j. rw (never j);
      destinations = λ j dk. rw (never j);
      managed = λ j. rw (never j);
      snat = refl;
    }

    pub IsDropped-trans :
        (first second gone : ServiceKey → Bool) (w w1 w2 : World (FakeHandle IP) N)
        → IsDropped first w w1
        → IsDropped second w1 w2
        → ((j : ServiceKey) → gone j ≡ (first j || second j))
        → IsDropped gone w w2
    IsDropped-trans first second gone w w1 w2 a b either = record {
      well_formed = b.well_formed;
      services = λ j. ground (arith, a.services j, b.services j, either j);
      destinations = λ j dk. ground (arith, a.destinations j dk, b.destinations j dk, either j);
      managed = λ j. ground (arith, a.managed j, b.managed j, either j);
      snat = b.snat ∙ a.snat;
    }

    module _ (o : RangeOrder) (is_healthy : String → Bool) {F : Type 0} (sm : SnatManager F N) where
      deleted :
          (svc x : Service IP) (h : FakeHandle IP)
          → let key = make_fake_service_key std svc in
            lookup key h.services ≡ some x
            → Manager.delete_service (fake_handle std o) svc h ≡ (
              record { services = delete key h.services; destinations = delete key h.destinations },
              none,
            )
      unfolding Manager.delete_service
      deleted svc x h there = rw (del_service_found std svc h there)

      pub drop_service_ok :
          (svc x : Service IP) (w : World (FakeHandle IP) N)
          → IsWellFormed std w.kernel
          → let key = make_fake_service_key std svc in
            lookup key w.kernel.services ≡ some x
            → let r = drop_service std (fake_env std o is_healthy sm) key svc w in
              (r.1 ≡ none) × IsDropped (λ j. key == j) w r.0
      unfolding drop_service
      drop_service_ok svc x w wf there =
          let key = make_fake_service_key std svc in
          rw (deleted svc x w.kernel there, drop_service)
            (rw (deleted svc x w.kernel there) (
              refl,
              record {
                well_formed = drop_both std w.kernel wf key;
                services = λ j. lookup-delete key j w.kernel.services;
                destinations = λ j dk. ground (arith, lookup-delete key j w.kernel.destinations);
                managed = λ j. lookup-delete key j w.managed;
                snat = refl;
              },
            ))

      -- The body of the deleting loop of Reconcile.
      pub remove_service_ok :
          (dm : GoMap ServiceKey (DesiredService IP)) (svc : Service IP)
          (w : World (FakeHandle IP) N)
          → IsWellFormed std w.kernel
          → let key = make_fake_service_key std svc in
            (lookup key dm ≡ none → (x : Service IP) × (lookup key w.kernel.services ≡ some x))
            → let r = remove_service std (fake_env std o is_healthy sm) dm (key, svc) w in
              (r.1 ≡ none) × IsDropped (λ j. key == j && not (is_some (lookup j dm))) w r.0
      unfolding remove_service
      remove_service_ok dm svc w wf there =
          let key = make_fake_service_key std svc in
          elim (Option-cases (lookup key dm)) [
            | inl gone ↦
                let (no_error, first) = drop_service_ok svc (there gone).0 w wf (there gone).1 in
                rw (gone, remove_service)
                  (
                    no_error,
                    IsDropped-trans (λ j. key == j) (λ j. false) _ w _ _ first
                        (IsDropped-none (λ j. false) _ first.well_formed (λ j. refl))
                        (λ j. ground (arith, gone, ==_iff {A = ServiceKey} key j)),
                  )
            | inr (d, kept) ↦
                rw (kept, remove_service)
                  (
                    refl,
                    IsDropped-none _ w wf
                        (λ j. ground (arith, kept, ==_iff {A = ServiceKey} key j)),
                  )
          ]
