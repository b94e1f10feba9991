-- ===== src/Dashboard/Bridge/Rows/Tests.antt =====
-- A row of the delivery table with one event received, one lost and one pending.
use act_sim_scope_infra.Common.{ℕ, ◌+◌, ◌≡◌, refl, [], ◌∷◌, none, string_key, nat_key, pair_key}
use act_sim_scope_infra.Dashboard.Bridge.Recipients.{AuditEvent}
use act_sim_scope_infra.Dashboard.Bridge.Poll.{AuditState, EventKey}
use act_sim_scope_infra.Dashboard.Bridge.Rows.{
  Flow, Sent, row_of, send_rate, required_samples_for_full_set,
}

abbrev command : ℕ → ℕ → AuditEvent
command n t = record {
  event = "sent";
  run_id = "r1";
  node = "Platform_30";
  topic = "ContactReport";
  source_node = "Platform_30";
  sequence = n;
  sent_at_ns = t;
  destination = none;
}

abbrev command_key : ℕ → EventKey
command_key n = (("ContactReport", "Platform_30"), ("r1", n))

abbrev contact_flow : Flow
contact_flow = (("ContactReport", "Platform_30"), "Control_20")

abbrev sent_events : Sent
sent_events =
    (command_key 1, command 1 1000000)
    ∷ (command_key 2, command 2 2000000)
    ∷ (command_key 3, command 3 9000000000)
    ∷ []

abbrev audit_state : AuditState
audit_state = record {
  sent = sent_events;
  received = ((command_key 1, "Control_20"), command 1 1000000) ∷ [];
  versions = [];
}

row_once :
    (row_of 10000000000 30000 audit_state contact_flow sent_events).received
      + (row_of 10000000000 30000 audit_state contact_flow sent_events).lost
    ≡ 2
unfolding row_of send_rate required_samples_for_full_set
row_once = refl
