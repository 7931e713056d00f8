-- ===== src/Admin.antt =====
-- pkg/admin/server.go: the admin server. http.ServeMux is a parameter, whose Handle may panic; `quote`
-- is fmt's %q, `listen` net.Listen with the address that the listener then has. Serving and shutting
-- down the listener are left to net/http.
pub mod Routes
mod Tests
use Prim.Native.String.{◌++◌}
use ezlb.Shared.{ℕ, String, Bool, true, false, Option, none, some, List, [], ◌∷◌}
use ezlb.Shared.Eq.{◌==◌, string_eq}
use ezlb.Shared.GoMap.{GoMap}
use ezlb.Shared.Order.{RangeOrder}
use ezlb.Shared.Result.{Result, ok, err}
use ezlb.Shared.Tests.{if◌then◌else◌}

-- admin.Config
pub record AdminConfig : Type 0 where
  pub listen_addr : String
  pub metrics_path : String
  pub metrics_enabled : Bool

-- The fields of Server that Start reads or sets before it listens; the health statuses are those that
-- healthCheckFunc returns when it is called, `none` where it has not been set.
pub record AdminServer : Type 0 where
  pub listen_addr : String
  pub metrics_path : String
  pub metrics_enabled : Bool

unfoldable pub new_admin_server : AdminConfig → AdminServer
new_admin_server cfg = record {
  listen_addr = cfg.listen_addr;
  metrics_path = cfg.metrics_path;
  metrics_enabled = cfg.metrics_enabled;
}

-- IsEnabled
unfoldable pub is_admin_enabled : AdminServer → Bool
is_admin_enabled s = if s.listen_addr == "" then false else true

pub data Handler : Type 0 where
  metrics_handler health_handler reload_handler : Handler

-- http.ServeMux: NewServeMux, and Handle, `none` where it panics.
pub record ServeMux (X : Type 0) : Type 0 where
  pub new_serve_mux : X
  pub handle : String → Handler → X → Option X

-- How Start ends.
pub data Started (X E : Type 0) : Type 0 where
  disabled panicked : Started X E
  invalid_address : String → Started X E
  listen_failed : E → Started X E
  serving : X → String → Started X E

abbrev pub is_panicked : {X E : Type 0} → Started X E → Bool
is_panicked panicked = true
is_panicked outcome = false

abbrev pub metrics_path_of : AdminServer → String
metrics_path_of s = if s.metrics_path == "" then "/metrics" else s.metrics_path

module _ {X : Type 0} (mx : ServeMux X) where
  abbrev pub then_handle : Option X → String → Handler → Option X
  then_handle none pattern h = none
  then_handle (some mux) pattern h = mx.handle pattern h mux

  -- The mux once Start has registered its patterns.
  unfoldable pub routes : AdminServer → Option X
  routes s =
      let metrics =
        if s.metrics_enabled
        then mx.handle (metrics_path_of s) metrics_handler mx.new_serve_mux
        else some mx.new_serve_mux in
      then_handle (then_handle metrics "/health" health_handler) "/reload" reload_handler

  module _ {E : Type 0} (split_host_port : String → Option (String × String))
      (listen : String → Result E String) where
    unfoldable pub start_admin : AdminServer → Started X E
    start_admin s = if s.listen_addr == "" then disabled else elim (routes s) [
      | none ↦ panicked
      | some mux ↦ elim (split_host_port s.listen_addr) [
        | none ↦ invalid_address s.listen_addr
        | some _ ↦ elim (listen s.listen_addr) [
          | err e ↦ listen_failed e
          | ok addr ↦ serving mux addr
        ]
      ]
    ]

pub record Response : Type 0 where
  pub status : ℕ
  pub body : String

abbrev pub not_allowed : Response
not_allowed = record { status = 405; body = "Method not allowed" }

abbrev pub join_parts : List String → String
join_parts [] = ""
join_parts (s ∷ []) = s
join_parts (s ∷ t ∷ rest) = s ++ "," ++ join_parts (t ∷ rest)

module _ (quote : String → String) (o : RangeOrder) where
  unfoldable pub health_parts : GoMap String Bool → List String
  health_parts [] = []
  health_parts ((k, v) ∷ health) =
      (quote k ++ ":" ++ (if v then "true" else "false")) ∷ health_parts health

  unfoldable pub format_health_json : Option (GoMap String Bool) → String
  format_health_json none = "{}"
  format_health_json (some health) = "{" ++ join_parts (health_parts (o.arrange health)) ++ "}"

  unfoldable pub handle_health : String → Option (GoMap String Bool) → Response
  handle_health method backend_health =
      if method == "GET"
      then record {
        status = 200;
        body = "{\"status\":\"healthy\",\"backends\":" ++ format_health_json backend_health ++ "}";
      }
      else not_allowed

unfoldable pub handle_reload : String → Response
handle_reload method =
    if method == "POST"
    then record { status = 200; body = "{\"status\":\"reload triggered\"}" }
    else not_allowed
