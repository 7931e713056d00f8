-- ===== src/Admin/Tests.antt =====
-- The admin server with a metrics path that it also uses for something else, over a mux that holds
-- its patterns.
use ezlb.Shared.{
  ◌≡◌, refl, inl, inr, String, Bool, true, false, ◌||◌, Option, none, some, List, [], ◌∷◌, arith,
}
use ezlb.Shared.Eq.{◌==◌, string_eq, ==_iff}
use ezlb.Shared.Result.{Result, ok}
use ezlb.Shared.Tests.{if◌then◌else◌, Bool-cases}
use ezlb.Admin.{AdminServer, Handler, ServeMux, is_panicked, start_admin, routes}
use ezlb.Admin.Routes.{IsDocumented, start_admin-is_panicked}

abbrev split : String → Option (String × String)
split s = some ("", "9090")

abbrev listen : String → Result (Unit {0}) String
listen s = ok "127.0.0.1:9090"

abbrev has_pattern : String → List String → Bool
has_pattern p [] = false
has_pattern p (q ∷ patterns) = p == q || has_pattern p patterns

abbrev handle_pattern : String → Handler → List String → Option (List String)
handle_pattern p h patterns = if has_pattern p patterns then none else some (p ∷ patterns)

abbrev mux : ServeMux (List String)
mux = record { new_serve_mux = []; handle = handle_pattern }

mux-IsDocumented : IsDocumented mux
mux-IsDocumented = record {
  registered = has_pattern;
  adds = λ p h m m' taken. elim (Bool-cases (has_pattern p m)) [
    | inl there ↦ absurd (ground (arith, taken, there))
    | inr free ↦
        let at : p ∷ m ≡ m' = ground (arith, taken, free) in
        rw (← at) (ground (arith, ==_iff {A = String} p p))
  ];
  keeps = λ j p h m m' taken there. elim (Bool-cases (has_pattern p m)) [
    | inl held ↦ absurd (ground (arith, taken, held))
    | inr free ↦
        let at : p ∷ m ≡ m' = ground (arith, taken, free) in rw (← at) (ground (arith, there))
  ];
  refuses = λ p h m there. rw there refl;
}

abbrev clashing : AdminServer
clashing = record { listen_addr = ":9090"; metrics_path = "/health"; metrics_enabled = true }

start_admin-is_panicked_example : is_panicked (start_admin mux split listen clashing) ≡ true
start_admin-is_panicked_example =
    start_admin-is_panicked mux mux-IsDocumented split listen clashing refl refl refl

default_serves :
    is_panicked (start_admin mux split listen (record clashing { metrics_path = "" })) ≡ false
unfolding start_admin routes
default_serves = refl
