-- ===== src/Harness/MeshControl.antt =====
-- The commands and the loop of harness_v2/scripts/platform_mesh_control.py. One `Wakeup` is one pass of
-- `while running`: the samples that the three readers hand out, and the clock at its end. The commands
-- written are kept, the newest first.
pub mod Teams
pub mod Routes
pub mod Ignored
pub mod Settles
mod Tests
use act_sim_scope_infra.Common.{
  ℕ, ◌+◌, ◌≤◌, ◌≡◌, arith, inl, inr, Bool-cases, String, List, [], ◌∷◌, Bool, true, false, not,
  ◌&&◌, ◌||◌, Option, none, some, ◌==◌, if◌then◌else◌, str_eq, suc,
}
use act_sim_scope_infra.Harness.Reporting.{
  Reporting, fresh, observe, request, mode, or_same, status_init, status_mission, status_debug,
}

pub data Kind : Type 0 where
  enable_route disable_route add_participant_partition remove_participant_partition : Kind

-- `f"team-ctrl-{cmd_seq}"` and `f"status-mode-{cmd_seq}"`
pub data CommandId : Type 0 where
  team_ctrl status_mode : ℕ → CommandId

pub record Command : Type 0 where
  pub target_node : String
  pub target_router : String
  pub command_id : CommandId
  pub kind : Kind
  pub participant_name : String
  pub partition_name : String
  pub route_name : String

pub record Control : Type 0 where
  pub tracked_team : String
  pub tracked_mode : ℕ
  pub reporting : Reporting
  pub cmd_seq : ℕ
  pub written : List Command

unfoldable pub start : Control
start = record {
  tracked_team = "";
  tracked_mode = status_init;
  reporting = fresh;
  cmd_seq = 0;
  written = [];
}

-- An enum as it arrives: an integer, `below_zero` when it is negative, or a label.
pub data EnumValue : Type 0 where
  ordinal : ℕ → EnumValue
  below_zero : EnumValue
  label : String → EnumValue

-- `none` is a negative number, -1 among them.
unfoldable pub parse_mode : EnumValue → Option ℕ
parse_mode (ordinal n) = some n
parse_mode below_zero = none
parse_mode (label s) =
    if str_eq s "STATUS_INIT" || str_eq s "INIT" || str_eq s "0"
    then some status_init
    else if str_eq s "STATUS_MISSION" || str_eq s "MISSION" || str_eq s "1"
    then some status_mission
    else if str_eq s "STATUS_DEBUG" || str_eq s "DEBUG" || str_eq s "2"
    then some status_debug
    else none

pub record TeamSample : Type 0 where
  pub valid : Bool
  pub platform_node : String
  pub team_name : String

pub record MissionSample : Type 0 where
  pub valid : Bool
  pub source : String
  pub mission_phase : String
  pub mission_id : String
  pub now : ℕ

pub record ModeSample : Type 0 where
  pub valid : Bool
  pub platform_node : String
  pub resolution_mode : EnumValue

pub record Wakeup : Type 0 where
  pub teams : List TeamSample
  pub missions : List MissionSample
  pub modes : List ModeSample
  pub now : ℕ

-- A negative mode raises as an unknown one does.
unfoldable pub request_parsed : Option ℕ → Reporting → Option Reporting
request_parsed none s = none
request_parsed (some value) s = request value s

module _ (node router_name : String) where
  unfoldable pub make_cmd : Kind → String → Control → Control
  make_cmd kind partition c = record c {
    cmd_seq = suc c.cmd_seq;
    written =
        record {
          target_node = node;
          target_router = router_name;
          command_id = team_ctrl (suc c.cmd_seq);
          kind = kind;
          participant_name = "platform_wan";
          partition_name = partition;
          route_name = "";
        }
        ∷ c.written;
  }

  unfoldable pub make_route_cmd : Kind → String → Control → Control
  make_route_cmd kind route c = record c {
    cmd_seq = suc c.cmd_seq;
    written =
        record {
          target_node = node;
          target_router = router_name;
          command_id = status_mode (suc c.cmd_seq);
          kind = kind;
          participant_name = "";
          partition_name = "";
          route_name = route;
        }
        ∷ c.written;
  }

  unfoldable pub set_routes : Kind → Kind → Control → Control
  set_routes detail debug c =
      make_route_cmd debug "platform_debug_status"
        (make_route_cmd detail "platform_detail_status" c)

  unfoldable pub apply_mode : ℕ → Control → Control
  apply_mode value c =
      let primary = make_route_cmd enable_route "platform_init_status" c in
      if value == status_init
      then set_routes disable_route disable_route primary
      else if value == status_mission
      then set_routes enable_route disable_route primary
      else if value == status_debug
      then set_routes enable_route enable_route primary
      else primary

  unfoldable pub leave_team : Control → Control
  leave_team c =
      if str_eq c.tracked_team "" then c else make_cmd remove_participant_partition c.tracked_team c

  unfoldable pub change_team : String → Control → Control
  change_team team c =
      let left = leave_team c in
      let joined =
        (if str_eq team "" then left else make_cmd add_participant_partition team left) in
      record joined { tracked_team = team }

  unfoldable pub take_team : TeamSample → Control → Control
  take_team s c =
      if s.valid && str_eq s.platform_node node && not (str_eq s.team_name c.tracked_team)
      then change_team s.team_name c
      else c

  unfoldable pub take_teams : List TeamSample → Control → Control
  take_teams [] c = c
  take_teams (s ∷ ss) c = take_teams ss (take_team s c)

  unfoldable pub take_mission : MissionSample → Reporting → Reporting
  take_mission s r =
      if s.valid && str_eq s.source node
      then or_same (observe s.mission_phase s.now s.mission_id r) r
      else r

  unfoldable pub take_missions : List MissionSample → Reporting → Reporting
  take_missions [] r = r
  take_missions (s ∷ ss) r = take_missions ss (take_mission s r)

  unfoldable pub take_mode : ModeSample → Reporting → Reporting
  take_mode s r =
      if s.valid && str_eq s.platform_node node
      then or_same (request_parsed (parse_mode s.resolution_mode) r) r
      else r

  unfoldable pub take_modes : List ModeSample → Reporting → Reporting
  take_modes [] r = r
  take_modes (s ∷ ss) r = take_modes ss (take_mode s r)

  unfoldable pub follow_mode : ℕ → Control → Control
  follow_mode value c =
      if value == c.tracked_mode then c else record (apply_mode value c) { tracked_mode = value }

  unfoldable pub report_samples : Wakeup → Reporting → Reporting
  report_samples w r = take_modes w.modes (take_missions w.missions r)

  unfoldable pub wake : Wakeup → Control → Control
  wake w c =
      let t = take_teams w.teams c in
      let r = report_samples w t.reporting in
      follow_mode (mode w.now r) (record t { reporting = r })

  unfoldable pub run : List Wakeup → Control → Control
  run [] c = c
  run (w ∷ ws) c = run ws (wake w c)

mode-le : (now : ℕ) (r : Reporting) → mode now r ≤ status_debug
unfolding mode
mode-le now r = ground arith

-- An invariant of the three ways the loop changes the state is one of the whole loop.
module _ (P : Control → Type 0) (node router_name : String)
    (joins : (team : String) (c : Control) → P c → P (change_team node router_name team c))
    (reports : (r : Reporting) (c : Control) → P c → P (record c { reporting = r }))
    (follows : (value : ℕ) (c : Control)
      → value ≤ status_debug
      → P c
      → P (record (apply_mode node router_name value c) { tracked_mode = value })) where
  pub take_teams-keeps :
      (ss : List TeamSample) (c : Control) → P c → P (take_teams node router_name ss c)
  unfolding take_teams take_team
  take_teams-keeps [] c p = p
  take_teams-keeps (s ∷ ss) c p =
      elim (Bool-cases
        (s.valid && str_eq s.platform_node node && not (str_eq s.team_name c.tracked_team))) [
          | inl b ↦ rw b (
              take_teams-keeps ss (change_team node router_name s.team_name c)
                (joins s.team_name c p))
          | inr b ↦ rw b (take_teams-keeps ss c p)
        ]

  pub follow_mode-keeps :
      (value : ℕ) (c : Control)
      → value ≤ status_debug
      → P c
      → P (follow_mode node router_name value c)
  unfolding follow_mode
  follow_mode-keeps value c l p = elim (Bool-cases (value == c.tracked_mode)) [
    | inl b ↦ rw b p
    | inr b ↦ rw b (follows value c l p)
  ]

  pub run-keeps : (ws : List Wakeup) (c : Control) → P c → P (run node router_name ws c)
  unfolding run wake
  run-keeps [] c p = p
  run-keeps (w ∷ ws) c p =
      let t = take_teams node router_name w.teams c in
      let r = report_samples node router_name w t.reporting in
      run-keeps ws (wake node router_name w c) (
        follow_mode-keeps (mode w.now r) (record t { reporting = r }) (mode-le w.now r)
          (reports r t (take_teams-keeps w.teams c p)))
