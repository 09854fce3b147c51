-- ===== src/Routes/Table.antt =====
-- supervictor/endpoint/src/routes.rs and ui/mod.rs: the two functions `router`, as the table of routes
-- that they build, and the paths of supervictor/common/src/routes.rs. Matching a request against the
-- table is axum's.
use super_victor.Prelude.{Bool, true, false, Option, List, [], ◌∷◌, ◌++◌, if◌then◌else◌}
use super_victor.Prelude.Text.{Text, codes}
use super_victor.Middleware.{Response, next, require_admin}

-- The handler of a route.
pub data Handler : Type 0 where
  api_health api_hello api_uplink api_list_devices api_register_device api_get_device
        api_get_device_uplinks api_fleet_status api_fleet_summary :
      Handler
  ui_fleet ui_register_device ui_device_detail ui_set_status ui_sse_events ui_stylesheet : Handler

pub data Method : Type 0 where
  method_get method_post : Method

-- A route, and whether the admin gate stands in front of it.
pub record Route : Type 0 where
  pub method : Method
  pub pattern : Text
  pub handler : Handler
  pub gated : Bool

abbrev pub ungated : Method → Text → Handler → Route
ungated method pattern handler = record {
  method = method;
  pattern = pattern;
  handler = handler;
  gated = false;
}

-- `.route_layer(from_fn(require_admin))` on the routes so far.
abbrev pub route_layer : List Route → List Route
route_layer [] = []
route_layer (r ∷ routes) = record r { gated = true } ∷ route_layer routes

unfoldable pub fleet_api : List Route
fleet_api = route_layer (
    ungated method_get (codes "/fleet") api_fleet_status
    ∷ ungated method_get (codes "/fleet/summary") api_fleet_summary
    ∷ [])

-- The router of the dashboard.
unfoldable pub ui_router : List Route
ui_router = route_layer (
    ungated method_get (codes "/ui") ui_fleet
    ∷ ungated method_post (codes "/ui") ui_register_device
    ∷ ungated method_post (codes "/ui/devices") ui_register_device
    ∷ ungated method_get (codes "/ui/devices/{device_id}") ui_device_detail
    ∷ ungated method_post (codes "/ui/devices/{device_id}/status") ui_set_status
    ∷ ungated method_get (codes "/ui/events") ui_sse_events
    ∷ ungated method_get (codes "/ui/assets/style.css") ui_stylesheet
    ∷ [])

-- The whole table, with the dashboard if the feature `ui` is on.
unfoldable pub router : Bool → List Route
unfolding fleet_api ui_router
router ui =
    ungated method_get (codes "/health") api_health
    ∷ ungated method_get (codes "/") api_hello
    ∷ ungated method_post (codes "/") api_uplink
    ∷ ungated method_get (codes "/devices") api_list_devices
    ∷ ungated method_post (codes "/devices") api_register_device
    ∷ ungated method_get (codes "/devices/{device_id}") api_get_device
    ∷ ungated method_get (codes "/devices/{device_id}/uplinks") api_get_device_uplinks
    ∷ (fleet_api ++ (if ui then ui_router else []))

-- What a request with a subject meets on a route.
unfoldable pub enter : Option Text → Route → Response Handler
enter subject r = if r.gated then require_admin subject r.handler else next r.handler
