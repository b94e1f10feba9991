-- ===== src/Dashboard/Bridge/Poll/Tests.antt =====
-- The audit events of one location report, with the copy at one platform before the report itself.
use act_sim_scope_infra.Common.{
  ◌≡◌, ◌+◌, refl, String, List, [], ◌∷◌, Option, none, some, string_key, nat_key, pair_key,
}
use act_sim_scope_infra.Dashboard.Bridge.Mesh.{Mesh}
use act_sim_scope_infra.Dashboard.Bridge.Recipients.{
  AuditEvent, expected_recipients, location_recipients,
}
use act_sim_scope_infra.Dashboard.Bridge.Counts.{version_at, note_sent, note_received}
use act_sim_scope_infra.Dashboard.Bridge.Counts.Recount.{NoRepeat}
use act_sim_scope_infra.Dashboard.Bridge.Poll.{
  group_of, poll_audit_events, poll_lines, poll_event, prune_audit_events, no_events,
}
use act_sim_scope_infra.Dashboard.Bridge.Poll.Forgotten.{
  File, poll_files, sent_kept, received_kept, forgotten, poll_audit_events-recounts,
}

abbrev nodes : String → List String
nodes run_id = "Control_20" ∷ "Platform_30" ∷ "Platform_31" ∷ []

abbrev no_mesh : Mesh
no_mesh = record { cache = []; platform_status_modes = []; platform_status_mode_changed_ns = [] }

abbrev located : String → String → AuditEvent
located kind at = record {
  event = kind;
  run_id = "r1";
  node = at;
  topic = "PlatformInitStatus";
  source_node = "Platform_30";
  sequence = 7;
  sent_at_ns = 1000;
  destination = none;
}

abbrev audit_lines : List (Option AuditEvent)
audit_lines =
    some (located "received" "Platform_31")
    ∷ none
    ∷ some (located "sent" "Platform_30")
    ∷ some (located "received" "Control_20")
    ∷ some (located "received" "Control_20")
    ∷ some (located "received" "Platform_30")
    ∷ []

-- The events are too old at the end of the second file, and the third reads one of them again.
abbrev audit_files : List File
audit_files =
    record { lines = audit_lines; now_ns = 5000 }
    ∷ record { lines = []; now_ns = 60000002000 }
    ∷ record { lines = some (located "sent" "Platform_30") ∷ []; now_ns = 60000000500 }
    ∷ []

abbrev location_flow : String × String
location_flow = ("PlatformInitStatus", "Platform_30")

polled_once :
    (poll_files nodes no_mesh location_flow "Control_20" audit_files no_events).versions
    ≡ ((("PlatformInitStatus", "Platform_30"), "Control_20"), (2, 1))
      ∷ ((("PlatformInitStatus", "Platform_30"), "Platform_31"), (2, 1))
      ∷ []
unfolding poll_audit_events poll_lines poll_event prune_audit_events note_sent note_received
    expected_recipients location_recipients
polled_once = refl

nodes-NoRepeat : (run_id : String) → NoRepeat (nodes run_id)
nodes-NoRepeat run_id = (refl, (refl, (refl, tt)))

poll_audit_events-recounts_example :
    version_at group_of
      (expected_recipients nodes no_mesh)
      (location_flow, "Control_20")
      (poll_files nodes no_mesh location_flow "Control_20" audit_files no_events).versions
    ≡ (
      sent_kept nodes no_mesh location_flow "Control_20"
            (poll_files nodes no_mesh location_flow "Control_20" audit_files no_events)
          + forgotten nodes no_mesh location_flow "Control_20"
              (sent_kept nodes no_mesh location_flow "Control_20")
              audit_files
              no_events,
      received_kept nodes no_mesh location_flow "Control_20"
            (poll_files nodes no_mesh location_flow "Control_20" audit_files no_events)
          + forgotten nodes no_mesh location_flow "Control_20"
              (received_kept nodes no_mesh location_flow "Control_20")
              audit_files
              no_events,
    )
poll_audit_events-recounts_example =
    poll_audit_events-recounts nodes no_mesh nodes-NoRepeat location_flow "Control_20" audit_files
