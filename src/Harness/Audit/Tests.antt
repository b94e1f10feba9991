-- ===== src/Harness/Audit/Tests.antt =====
-- The audit on a run of two nodes: one command sent and received, then the same command received twice.
use act_sim_scope_infra.Common.{
  ◌+◌, ◌≤◌, ◌≡◌, refl, String, [], ◌∷◌, true, false, Option, none, some, if◌then◌else◌, str_eq,
  length, string_key, nat_key, pair_key, arith,
}
use act_sim_scope_infra.Common.Counter.{occurrences}
use act_sim_scope_infra.Harness.Audit.{
  Event, Requirement, Manifest, fixed_nodes, expected_receivers,
}
use act_sim_scope_infra.Harness.Audit.Deliveries.{
  DeliveryKey, Expectations, keys_of, receives_of, sends_of, for_receivers, received_keys,
  expect_all, match_all,
}
use act_sim_scope_infra.Harness.Audit.Evidence.{
  RawEvent, Log, load_events, read_log, read_lines, read_line, missing_of,
}
use act_sim_scope_infra.Harness.Audit.Inputs.{
  RawManifest, RawSnapshot, load_manifest, load_expectations, requirements_of, expectations_of,
  matching_topics,
}
use act_sim_scope_infra.Harness.Audit.Exact.{expected_keys}
use act_sim_scope_infra.Harness.Audit.Conserved.{counts, findings_of-counts}
use act_sim_scope_infra.Harness.Audit.Verdicts.{
  pass, fail, inconclusive, analyze, findings_of, topic_verdict, summary_of, summaries, overall,
}
use act_sim_scope_infra.Harness.Audit.Judged.{topic_verdict-threshold}
use act_sim_scope_infra.Harness.Audit.Main.{audit, expectations_in, events_in, audit-pass}

abbrev raw : String → String → String → Option String → RawEvent
raw kind topic at destination = record {
  run_id = some "r1";
  event = some kind;
  topic = some topic;
  source_node = some "Control_20";
  sequence = some 1;
  node = some at;
  destination = destination;
}

abbrev log : String → Log
log node =
    if str_eq node "control_20"
    then some (some (raw "sent" "Command" "Control_20" none) ∷ [])
    else if str_eq node "platform_30"
    then some (some (raw "received" "Command" "Platform_30" none) ∷ [])
    else none

abbrev doubled : String → Log
doubled node =
    if str_eq node "control_20"
    then some (some (raw "sent" "Command" "Control_20" none) ∷ [])
    else some (
        some (raw "received" "Command" "Platform_30" none)
        ∷ some (raw "received" "Command" "Platform_30" none)
        ∷ [])

abbrev manifest_file : Option RawManifest
manifest_file = some (record {
  run_id = some "r1";
  nodes = some (some "control_20" ∷ some "platform_30" ∷ []);
  topics = some (
      (
        "Command",
        some (record {
          minimum_sent = some 1;
          completion_threshold_percent = some 100;
          priority = none;
        }),
      )
      ∷ []);
})

abbrev snapshot_file : Option RawSnapshot
snapshot_file = some (record {
  run_id = some "r1";
  nodes = some ("control_20" ∷ "platform_30" ∷ []);
  topics = some (
      (
        "Command",
        some (record {
          enabled = some true;
          source_nodes = some ("Control_20" ∷ []);
          recipient_rule =
              some (record { kind = some fixed_nodes; nodes = some ("Platform_30" ∷ []) });
        }),
      )
      ∷ []);
})

abbrev key : DeliveryKey
key = ("Command", ("Control_20", (1, "Platform_30")))

passed_once : (audit log "r1" manifest_file snapshot_file).verdict ≡ pass
unfolding audit analyze load_events read_log read_lines read_line missing_of load_manifest
    load_expectations requirements_of expectations_of matching_topics findings_of topic_verdict
    summary_of summaries overall expected_receivers sends_of receives_of received_keys keys_of
    for_receivers expect_all match_all
passed_once = refl

repeated_once : (audit doubled "r1" manifest_file snapshot_file).verdict ≡ fail
unfolding audit analyze load_events read_log read_lines read_line missing_of load_manifest
    load_expectations requirements_of expectations_of matching_topics findings_of topic_verdict
    summary_of summaries overall expected_receivers sends_of receives_of received_keys keys_of
    for_receivers expect_all match_all
repeated_once = refl

unread_once : (audit log "r2" manifest_file snapshot_file).verdict ≡ inconclusive
unfolding audit analyze load_events read_log read_lines read_line missing_of load_manifest
    load_expectations requirements_of expectations_of matching_topics findings_of topic_verdict
    summary_of summaries overall expected_receivers sends_of receives_of received_keys keys_of
    for_receivers expect_all match_all
unread_once = refl

audit-pass_example :
    (occurrences key (
        keys_of (
          receives_of
            (expectations_in log "r1" manifest_file snapshot_file)
            (events_in log "r1" manifest_file snapshot_file)))
      ≡ occurrences key (
          expected_keys
            (findings_of
              (expectations_in log "r1" manifest_file snapshot_file)
              (events_in log "r1" manifest_file snapshot_file)).expected))
    × (occurrences key (
          expected_keys
            (findings_of
              (expectations_in log "r1" manifest_file snapshot_file)
              (events_in log "r1" manifest_file snapshot_file)).expected)
        ≤ 1)
unfolding audit analyze load_events read_log read_lines read_line missing_of load_manifest
    load_expectations requirements_of expectations_of matching_topics findings_of topic_verdict
    summary_of summaries overall expected_receivers sends_of receives_of received_keys keys_of
    for_receivers expect_all match_all
audit-pass_example = audit-pass log "r1" manifest_file snapshot_file key refl

abbrev sent_once : Event
sent_once = record {
  event = "sent";
  topic = "Command";
  source_node = "Control_21";
  sequence = 1;
  node = "Control_21";
  destination = none;
}

abbrev expectations : Expectations
expectations =
    (
      "Command",
      record {
        enabled = true;
        source_nodes = "Control_20" ∷ [];
        kind = fixed_nodes;
        nodes = "Platform_30" ∷ [];
      },
    )
    ∷ []

abbrev requirement : Requirement
requirement = record { minimum_sent = 1; completion_threshold_percent = 90; priority = none }

abbrev manifest : Manifest
manifest = record { nodes = "control_20" ∷ []; topics = ("Command", requirement) ∷ [] }

findings_of-counts_example :
    length (receives_of expectations (sent_once ∷ []))
      + length (findings_of expectations (sent_once ∷ [])).missing
      + length (findings_of expectations (sent_once ∷ [])).duplicates
    ≡ length (findings_of expectations (sent_once ∷ [])).expected
      + counts (findings_of expectations (sent_once ∷ [])).duplicates
      + counts (findings_of expectations (sent_once ∷ [])).unexpected
findings_of-counts_example = findings_of-counts expectations (sent_once ∷ [])

topic_verdict-threshold_example :
    topic_verdict false (record requirement { completion_threshold_percent = 10 }) 3 3 1 0 0
    ≡ topic_verdict false requirement 3 3 1 0 0
topic_verdict-threshold_example =
    topic_verdict-threshold requirement 10 3 3 1 0 0 (omega arith) (omega arith)
