-- ===== src/Admin/Routes.antt =====
-- When Start of the admin server panics.
use ezlb.Shared.{
  ◌≡◌, refl, ◌∙◌, ap, sym, inl, inr, String, Bool, true, false, ◌||◌, Option, none, some, arith,
}
use ezlb.Shared.Eq.{◌==◌, string_eq, ==_iff}
use ezlb.Shared.Result.{Result}
use ezlb.Shared.Tests.{Option-cases, Bool-cases}
use ezlb.Admin.{
  AdminServer, Handler, metrics_handler, health_handler, reload_handler, ServeMux, is_panicked,
  metrics_path_of, then_handle, routes, start_admin,
}

module _ {X : Type 0} (mx : ServeMux X) where
  -- What net/http documents of Handle: a pattern that it has taken is registered, the others stay
  -- registered, and it panics at a pattern that conflicts with a registered one, so at that one itself.
  pub record IsDocumented : Type 0 where
    pub registered : String → X → Bool
    pub adds :
        (p : String) (h : Handler) (m m' : X) → mx.handle p h m ≡ some m' → registered p m' ≡ true
    pub keeps :
        (j p : String) (h : Handler) (m m' : X)
        → mx.handle p h m ≡ some m'
        → registered j m ≡ true
        → registered j m' ≡ true
    pub refuses :
        (p : String) (h : Handler) (m : X) → registered p m ≡ true → mx.handle p h m ≡ none

  module _ (laws : IsDocumented) where
    -- A mux that has one of the two patterns panics when both are registered.
    then_handle-none :
        (path : String) (m : X)
        → laws.registered path m ≡ true
        → (path == "/health" || path == "/reload") ≡ true
        → then_handle mx (mx.handle "/health" health_handler m) "/reload" reload_handler ≡ none
    then_handle-none path m there clash = elim (Bool-cases (path == "/health")) [
      | inl health ↦
          let at : path ≡ "/health" = (==_iff {A = String} path "/health").0 health in
          rw
            (laws.refuses "/health" health_handler m
              (ap (λ p. laws.registered p m) (sym at) ∙ there))
            refl
      | inr other ↦
          let at : path ≡ "/reload" =
            (==_iff {A = String} path "/reload").0 (ground (arith, clash, other)) in
          elim (Option-cases (mx.handle "/health" health_handler m)) [
            | inl refused ↦ rw refused refl
            | inr (m', taken) ↦ rw taken (
                laws.refuses "/reload" reload_handler m' (
                  laws.keeps "/reload" "/health" health_handler m m' taken
                    (ap (λ p. laws.registered p m) (sym at) ∙ there)))
          ]
    ]

    routes-none :
        (s : AdminServer)
        → s.metrics_enabled ≡ true
        → (s.metrics_path == "/health" || s.metrics_path == "/reload") ≡ true
        → routes mx s ≡ none
    unfolding routes
    routes-none s enabled clash =
        let given : metrics_path_of s ≡ s.metrics_path = elim (Bool-cases (s.metrics_path == "")) [
          | inl empty ↦
              let at : s.metrics_path ≡ "" = (==_iff {A = String} s.metrics_path "").0 empty in
              absurd (cc (ap (λ p. p == "/health" || p == "/reload") (sym at) ∙ clash))
          | inr full ↦ rw full refl
        ] in
        rw enabled (
          rw given
            (elim (Option-cases (mx.handle s.metrics_path metrics_handler mx.new_serve_mux)) [
              | inl refused ↦ rw refused refl
              | inr (m, taken) ↦ rw taken (
                  then_handle-none s.metrics_path m
                    (laws.adds s.metrics_path metrics_handler mx.new_serve_mux m taken) clash)
            ]))

    module _ {E : Type 0} (split_host_port : String → Option (String × String))
        (listen : String → Result E String) where
      -- Where Handle does as net/http documents, a listen address is set, metrics are enabled and the
      -- configured metrics path is that of the health or of the reload endpoint, Start panics.
      pub start_admin-is_panicked :
          (s : AdminServer)
          → (s.listen_addr == "") ≡ false
          → s.metrics_enabled ≡ true
          → (s.metrics_path == "/health" || s.metrics_path == "/reload") ≡ true
          → is_panicked (start_admin mx split_host_port listen s) ≡ true
      unfolding start_admin
      start_admin-is_panicked s set enabled clash =
          rw set (rw (routes-none s enabled clash, start_admin) refl)
