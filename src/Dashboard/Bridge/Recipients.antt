-- ===== src/Dashboard/Bridge/Recipients.antt =====
-- `_expected_recipients` of mesh_bridge.py. `_audit_nodes_for_run` reads files, and is a parameter: the
-- nodes of a run, sorted.
pub mod Once
use act_sim_scope_infra.Common.{
  ℕ, String, List, [], ◌∷◌, Bool, not, ◌&&◌, ◌||◌, Option, none, some, if◌then◌else◌, str_eq, any,
  keep,
}
use act_sim_scope_infra.Dashboard.Bridge.Mesh.{
  Mesh, is_platform, team_names_for_node, platform_topic_expected, is_mission_topic, is_debug_topic,
}

pub record AuditEvent : Type 0 where
  pub event : String
  pub run_id : String
  pub node : String
  pub topic : String
  pub source_node : String
  pub sequence : ℕ
  pub sent_at_ns : ℕ
  pub destination : Option String

abbrev pub is_control_recipient_topic : String → Bool
is_control_recipient_topic topic =
    str_eq topic "PlatformInitStatus"
    || is_mission_topic topic
    || is_debug_topic topic
    || str_eq topic "PlatformCommandAck"
    || str_eq topic "ContactReport"

-- `source_teams.intersection(...)` is not empty
abbrev pub share_team : List String → List String → Bool
share_team xs ys = any (λ x. any (str_eq x) ys) xs

-- `[event["destination"]] if event.get("destination") else []`
abbrev pub destination_of : Option String → List String
destination_of none = []
destination_of (some destination) = if str_eq destination "" then [] else destination ∷ []

module _ (run_nodes : String → List String) (mesh : Mesh) where
  unfoldable pub team_recipients : AuditEvent → List String
  team_recipients e =
      let source_teams = team_names_for_node mesh e.source_node in
      keep
        (λ node.
          is_platform node
          && not (str_eq node e.source_node)
          && share_team source_teams (team_names_for_node mesh node))
        (run_nodes e.run_id)

  unfoldable pub health_recipients : AuditEvent → List String
  health_recipients e =
      if str_eq e.source_node "Control_20"
      then keep is_platform (run_nodes e.run_id)
      else if is_platform e.source_node
      then if any (str_eq "Control_20") (run_nodes e.run_id) then "Control_20" ∷ [] else []
      else []

  unfoldable pub location_recipients : AuditEvent → List String
  location_recipients e =
      keep (λ node. str_eq node "Control_20" || is_platform node && not (str_eq node e.source_node))
        (run_nodes e.run_id)

  unfoldable pub expected_recipients : AuditEvent → List String
  expected_recipients e =
      if str_eq e.topic "ControlCommand"
      then destination_of e.destination
      else if str_eq e.topic "PlatformData" && is_platform e.source_node
      then team_recipients e
      else if str_eq e.topic "RouterHealth"
      then health_recipients e
      else if str_eq e.topic "PlatformInitStatus" && is_platform e.source_node
      then location_recipients e
      else if is_control_recipient_topic e.topic && is_platform e.source_node
      then if platform_topic_expected mesh e.source_node e.topic e.sent_at_ns
        then "Control_20" ∷ []
        else []
      else []
