-- ===== src/Harness/Expectations/Accepted.antt =====
-- What delivery_audit_report.py makes of the snapshot that compile_delivery_expectations.py writes.
use act_sim_scope_infra.Common.{
  ◌≡◌, refl, String, List, [], ◌∷◌, Bool, true, false, not, ◌&&◌, ◌||◌, Option, some, str_eq,
  eq_iff, any, keep, Dict, contains, string_key, list_key, arith, inl, inr, Bool-cases, subst, ◌∙◌,
}
use text.Mathlib.Text.{starts_with}
use act_sim_scope_infra.Dashboard.Json.{Gives, Gives-bind, Gives-require}
use act_sim_scope_infra.Harness.Audit.{Requirement, Manifest}
use act_sim_scope_infra.Harness.Audit.Deliveries.{Expectations}
use act_sim_scope_infra.Harness.Audit.Inputs.{
  RawSnapshot, RawExpectation, loaded, load_expectations, matching_topics, expectations_of,
  same_topics, keys_in,
}
use act_sim_scope_infra.Harness.Expectations.{
  Baseline, TopicExpectation, Snapshot, has_duplicates, event_names, is_one, is_some_list,
  has_expected_topics, snapshot_of, compile_expectations,
}

-- The snapshot as it is read back from its file.
abbrev pub read_topics : Dict String TopicExpectation → Dict String (Option RawExpectation)
read_topics [] = []
read_topics ((topic, t) ∷ ts) =
    (
      topic,
      some (record {
        enabled = some t.enabled;
        source_nodes = some t.source_nodes;
        recipient_rule =
            some
              (record { kind = some t.recipient_rule.kind; nodes = some t.recipient_rule.nodes });
      }),
    )
    ∷ read_topics ts

abbrev pub read_back : Snapshot → RawSnapshot
read_back s = record {
  run_id = some s.run_id;
  nodes = some s.nodes;
  topics = some (read_topics s.topics);
}

abbrev pub manifest_of : Baseline → Manifest
manifest_of b = record { nodes = b.nodes; topics = b.topics }

-- What the audit works with.
abbrev pub audited : Dict String TopicExpectation → Expectations
audited [] = []
audited ((topic, t) ∷ ts) =
    (
      topic,
      record {
        enabled = t.enabled;
        source_nodes = t.source_nodes;
        kind = t.recipient_rule.kind;
        nodes = t.recipient_rule.nodes;
      },
    )
    ∷ audited ts

expectations_of-read_topics :
    (ts : Dict String TopicExpectation) → expectations_of (read_topics ts) ≡ loaded (audited ts)
unfolding expectations_of
expectations_of-read_topics [] = refl
expectations_of-read_topics ((topic, t) ∷ ts) = rw (expectations_of-read_topics ts) refl

abbrev IsLoaded : Baseline → Snapshot → Type 0
IsLoaded b s =
    load_expectations b.run_id (some (read_back s)) (some (manifest_of b))
    ≡ loaded (audited s.topics)

abbrev two : Option RawExpectation → Option RawExpectation → Dict String (Option RawExpectation)
two x y = ("ControlCommand", x) ∷ ("PlatformInitStatus", y) ∷ []

contains-two :
    (t : String) (x y : Option RawExpectation)
    → contains t (two x y) ≡ (str_eq t "ControlCommand" || str_eq t "PlatformInitStatus")
contains-two t x y = ground (
  arith,
  eq_iff "ControlCommand" t,
  eq_iff t "ControlCommand",
  eq_iff "PlatformInitStatus" t,
  eq_iff t "PlatformInitStatus",
)

keys_in-two :
    (topics : Dict String Requirement) (x y : Option RawExpectation)
    → any (λ t. not (str_eq t.0 "ControlCommand" || str_eq t.0 "PlatformInitStatus")) topics ≡ false
    → keys_in topics (two x y) ≡ true
keys_in-two [] x y h = refl
keys_in-two ((t, r) ∷ topics) x y h =
    elim (Bool-cases (str_eq t "ControlCommand" || str_eq t "PlatformInitStatus")) [
      | inl b ↦ rw (contains-two t x y, b) (keys_in-two topics x y (ground (arith, h, b)))
      | inr b ↦ absurd (ground (arith, h, b))
    ]

both : (a b c : Bool) → (a && b && not c) ≡ true → (a ≡ true) × (b ≡ true) × (c ≡ false)
both a b c h = ground (arith, h)

same_topics-two :
    (topics : Dict String Requirement) (x y : Option RawExpectation)
    → has_expected_topics topics ≡ true
    → same_topics (two x y) topics ≡ true
unfolding has_expected_topics
same_topics-two topics x y h =
    let parts =
      both (contains "ControlCommand" topics) (contains "PlatformInitStatus" topics)
        (any (λ t. not (str_eq t.0 "ControlCommand" || str_eq t.0 "PlatformInitStatus")) topics)
        h in
    rw (parts.0, parts.1, keys_in-two topics x y parts.2) refl

matching_topics-two :
    (m : Manifest) (x y : Option RawExpectation)
    → has_expected_topics m.topics ≡ true
    → matching_topics m (some (two x y)) ≡ expectations_of (two x y)
unfolding matching_topics
matching_topics-two m x y h = rw (same_topics-two m.topics x y h) refl

snapshot_of-IsLoaded :
    (b : Baseline) (control_nodes platform_nodes : List String) (shared : Bool)
    → has_expected_topics b.topics ≡ true
    → IsLoaded b (snapshot_of b control_nodes platform_nodes shared)
unfolding load_expectations snapshot_of
snapshot_of-IsLoaded b control_nodes platform_nodes shared h =
    rw ((eq_iff b.run_id b.run_id).1 refl, (list_key.same_iff b.nodes b.nodes).1 refl)
      (matching_topics-two (manifest_of b) _ _ h
        ∙ expectations_of-read_topics (snapshot_of b control_nodes platform_nodes shared).topics)

compile_expectations-Gives : (b : Baseline) → Gives (IsLoaded b) (compile_expectations b)
unfolding compile_expectations
compile_expectations-Gives b = Gives-require _ (not (has_duplicates b.nodes)) _ (λ h1.
    Gives-require _
      (is_one (keep (λ node. str_eq node "control_20") b.nodes)
        && is_some_list (keep (λ node. starts_with node "platform_") b.nodes))
      _
      (λ h2.
        Gives-bind _ (event_names (keep (λ node. str_eq node "control_20") b.nodes)) _
          (λ control_nodes e1.
            Gives-bind _ (event_names (keep (λ node. starts_with node "platform_") b.nodes)) _
              (λ platform_nodes e2. Gives-require _ (has_expected_topics b.topics) _ (λ h3.
                Gives-bind _ b.shared_platform_locations _
                  (λ shared e3. snapshot_of-IsLoaded b control_nodes platform_nodes shared h3))))))

-- Whenever the compiler accepts a manifest, the audit of the same run accepts the snapshot against the
-- same nodes and topics, and audits with exactly the expectations that were compiled.
pub compile_expectations-load_expectations :
    (b : Baseline) (s : Snapshot)
    → compile_expectations b ≡ some s
    → load_expectations b.run_id (some (read_back s)) (some (manifest_of b))
      ≡ loaded (audited s.topics)
compile_expectations-load_expectations b s h =
    subst (Gives (IsLoaded b)) h (compile_expectations-Gives b)
