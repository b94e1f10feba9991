-- ===== src/Dashboard/Bridge/Mesh.antt =====
-- The router mesh as mesh_bridge.py holds it: `cache` of the mesh status by observer, and what
-- `_reported_status_mode`, `_team_names_for_node` and `_platform_topic_expected` read in it. A field that
-- a sample lacks is its default, an empty text or list.
use text.Mathlib.Text.{starts_with}
use act_sim_scope_infra.Common.{
  ℕ, String, List, [], ◌∷◌, ◌++◌, Bool, true, false, not, ◌&&◌, ◌||◌, Option, none, some, ltb,
  if◌then◌else◌, str_eq, keep, Dict, lookup, insert, get_default, string_key,
}
use act_sim_scope_infra.Dashboard.Bridge.Names.{router_node}

pub record Route : Type 0 where
  pub route_name : String
  pub state : String

pub record Health : Type 0 where
  pub router : String
  pub routes : List Route
  pub team_partition : List String

pub record Status : Type 0 where
  pub peers : List Health

pub record Mesh : Type 0 where
  pub cache : Dict String Status
  pub platform_status_modes : Dict String String
  pub platform_status_mode_changed_ns : Dict String ℕ

-- `for status in self.cache.values() for peer in status.get("peers", [])`
unfoldable pub peers_of : Dict String Status → List Health
peers_of [] = []
peers_of ((observer, status) ∷ d) = status.peers ++ peers_of d

-- `{route["route_name"]: route["state"] for ...}`
unfoldable pub routes_of : List Route → Dict String String → Dict String String
routes_of [] d = d
routes_of (route ∷ routes) d = routes_of routes (insert route.route_name route.state d)

abbrev pub disabled : String
disabled = "ROUTE_DISABLED"

abbrev pub mode_with : Dict String String → String → String
mode_with routes debug =
    if not (str_eq debug disabled)
    then "debug"
    else if not (str_eq (get_default "platform_detail_status" disabled routes) disabled)
    then "mission"
    else "init"

-- `none` goes on to the next peer.
abbrev pub mode_by_routes : Dict String String → Option String → Option String
mode_by_routes routes none = none
mode_by_routes routes (some debug) = some (mode_with routes debug)

unfoldable pub mode_of_peer : String → Health → Option String
mode_of_peer source_node health =
    let routes = routes_of health.routes [] in
    if str_eq (router_node health.router) source_node
    then mode_by_routes routes (lookup "platform_debug_status" routes)
    else none

abbrev pub first_mode : Option String → String → String
first_mode none later = later
first_mode (some found) later = found

unfoldable pub mode_among : String → List Health → String → String
mode_among source_node [] default = default
mode_among source_node (health ∷ peers) default =
    first_mode (mode_of_peer source_node health) (mode_among source_node peers default)

unfoldable pub reported_status_mode : Mesh → String → String
reported_status_mode mesh source_node =
    mode_among source_node (peers_of mesh.cache)
      (get_default source_node "init" mesh.platform_status_modes)

abbrev pub is_mission_topic : String → Bool
is_mission_topic topic =
    str_eq topic "PlatformDetailStatus"
    || str_eq topic "PlatformMissionStatus"
    || str_eq topic "PlatformWaypointStatus"

abbrev pub is_debug_topic : String → Bool
is_debug_topic topic =
    str_eq topic "PlatformDebugStatus"
    || str_eq topic "PlatformThrusterStatus"
    || str_eq topic "PlatformPowerStatus"

abbrev pub is_platform : String → Bool
is_platform node = starts_with node "Platform_"

unfoldable pub platform_topic_expected : Mesh → String → String → ℕ → Bool
platform_topic_expected mesh source_node topic sent_at_ns =
    let mode = reported_status_mode mesh source_node in
    let cutoff_ns = get_default source_node 0 mesh.platform_status_mode_changed_ns in
    if not (is_platform source_node)
    then true
    else if (is_mission_topic topic || is_debug_topic topic) && ltb sent_at_ns cutoff_ns
    then false
    else if is_debug_topic topic
    then str_eq mode "debug"
    else if is_mission_topic topic
    then str_eq mode "mission" || str_eq mode "debug"
    else true

-- The partitions of the node's peers, each perhaps more than once.
unfoldable pub team_names_among : String → List Health → List String
team_names_among node_name [] = []
team_names_among node_name (health ∷ peers) =
    let rest = team_names_among node_name peers in
    if str_eq (router_node health.router) node_name
    then keep (λ partition. not (str_eq partition node_name)) health.team_partition ++ rest
    else rest

unfoldable pub team_names_for_node : Mesh → String → List String
team_names_for_node mesh node_name = team_names_among node_name (peers_of mesh.cache)
