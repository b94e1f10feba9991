-- ===== src/Harness/Expectations/Tests.antt =====
-- The expectations of one control node and one platform.
use act_sim_scope_infra.Common.{◌≡◌, refl, [], ◌∷◌, true, none, some, string_key}
use act_sim_scope_infra.Harness.Audit.{Requirement}
use act_sim_scope_infra.Harness.Audit.Inputs.{load_expectations, loaded}
use act_sim_scope_infra.Harness.Expectations.{
  Baseline, Snapshot, event_names, has_expected_topics, snapshot_of, compile_expectations,
}
use act_sim_scope_infra.Harness.Expectations.Accepted.{
  read_back, manifest_of, audited, compile_expectations-load_expectations,
}

abbrev three_sent : Requirement
three_sent = record { minimum_sent = 3; completion_threshold_percent = 100; priority = none }

abbrev baseline : Baseline
baseline = record {
  run_id = "r1";
  nodes = "control_20" ∷ "platform_30" ∷ [];
  topics = ("ControlCommand", three_sent) ∷ ("PlatformInitStatus", three_sent) ∷ [];
  shared_platform_locations = some true;
}

abbrev compiled_snapshot : Snapshot
compiled_snapshot = snapshot_of baseline ("Control_20" ∷ []) ("Platform_30" ∷ []) true

compiled_once : compile_expectations baseline ≡ some compiled_snapshot
unfolding compile_expectations event_names has_expected_topics
compiled_once = refl

unknown_once :
    compile_expectations (record baseline { nodes = "control_20" ∷ "platform_x" ∷ [] }) ≡ none
unfolding compile_expectations event_names has_expected_topics
unknown_once = refl

compile_expectations-load_expectations_example :
    load_expectations "r1" (some (read_back compiled_snapshot)) (some (manifest_of baseline))
    ≡ loaded (audited compiled_snapshot.topics)
unfolding compile_expectations event_names has_expected_topics
compile_expectations-load_expectations_example =
    compile_expectations-load_expectations baseline compiled_snapshot refl
