-- ===== src/Dashboard/Bridge/Poll.antt =====
-- `poll_audit_events` and `_prune_audit_events` of mesh_bridge.py. Of each file come its new lines, as far
-- as they are complete, and the clock at the end. A line is `none` when it is no JSON or lacks a required
-- field, and comes with the mesh as it is when the line is read.
pub mod Forgotten
mod Tests
use act_sim_scope_infra.Common.{
  ℕ, ◌≡◌, refl, String, List, [], ◌∷◌, Bool, true, false, Option, none, some, if◌then◌else◌, str_eq,
  leb, Dict, string_key, nat_key, pair_key, keep, any, Key, All, arith, inl, inr, Bool-cases, ap,
  ◌∙◌, subst, not, ◌&&◌, ◌||◌, ◌≤◌, ◌-◌,
}
use act_sim_scope_infra.Dashboard.Bridge.Mesh.{
  Mesh, is_platform, team_names_for_node, platform_topic_expected,
}
use act_sim_scope_infra.Dashboard.Bridge.Recipients.{
  AuditEvent, expected_recipients, team_recipients, health_recipients, location_recipients,
  destination_of, share_team, is_control_recipient_topic,
}
use act_sim_scope_infra.Dashboard.Bridge.Counts.{Audit, note_sent, note_received, version_at}

-- `(topic, source_node)`
abbrev pub FlowGroup : Type 0
FlowGroup = String × String

-- `(run_id, topic, source_node, sequence)`
abbrev pub EventKey : Type 0
EventKey = FlowGroup × (String × ℕ)

abbrev pub key_of : AuditEvent → EventKey
key_of e = ((e.topic, e.source_node), (e.run_id, e.sequence))

abbrev pub group_of : EventKey → FlowGroup
group_of key = key.0

abbrev pub AuditState : Type 0
AuditState = Audit EventKey FlowGroup String AuditEvent

abbrev pub is_recent : ℕ → AuditEvent → Bool
is_recent earliest_ns e = leb earliest_ns e.sent_at_ns

unfoldable pub prune_audit_events : ℕ → AuditState → AuditState
prune_audit_events earliest_ns a = record a {
  sent = keep (λ item. is_recent earliest_ns item.1) a.sent;
  received = keep (λ item. is_recent earliest_ns item.1) a.received;
}

abbrev pub Line : Type 0
Line = Mesh × Option AuditEvent

pub record NewLines : Type 0 where
  pub lines : List Line
  pub now_ns : ℕ

abbrev pub audit_keep_ns : ℕ
audit_keep_ns = 60000000000

module _ (run_nodes : String → List String) where
  unfoldable pub poll_event : Mesh → AuditEvent → AuditState → AuditState
  poll_event mesh e a =
      if str_eq e.event "sent"
      then note_sent group_of (expected_recipients run_nodes mesh) (key_of e) e a
      else if str_eq e.event "received"
      then note_received group_of (expected_recipients run_nodes mesh) (key_of e) e.node e a
      else a

  -- `while True`, over the lines of one file
  unfoldable pub poll_lines : List Line → AuditState → AuditState
  poll_lines [] a = a
  poll_lines ((mesh, none) ∷ lines) a = poll_lines lines a
  poll_lines ((mesh, some e) ∷ lines) a = poll_lines lines (poll_event mesh e a)

  -- `for path in self._active_audit_event_paths()`
  unfoldable pub poll_audit_events : List NewLines → AuditState → AuditState
  poll_audit_events [] a = a
  poll_audit_events (file ∷ files) a =
      poll_audit_events files
        (prune_audit_events (file.now_ns - audit_keep_ns) (poll_lines file.lines a))

abbrev pub no_events : AuditState
no_events = record { sent = []; received = []; versions = [] }
