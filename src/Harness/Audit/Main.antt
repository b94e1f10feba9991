-- ===== src/Harness/Audit/Main.antt =====
-- `main` of delivery_audit_report.py, from the parsed files to the report and the exit code.
use act_sim_scope_infra.Common.{
  ℕ, ◌≤◌, ◌≡◌, refl, String, List, [], ◌∷◌, ◌++◌, true, Option, none, some, All, Dict, contains,
  string_key, nat_key, pair_key, arith, inl, inr, Bool-cases,
}
use act_sim_scope_infra.Common.Counter.{occurrences}
use act_sim_scope_infra.Harness.Audit.{Event, Manifest, EvidenceError, or_empty, Expectation}
use act_sim_scope_infra.Harness.Audit.Deliveries.{DeliveryKey, Expectations, keys_of, receives_of}
use act_sim_scope_infra.Harness.Audit.Evidence.{Log, load_events, is_run}
use act_sim_scope_infra.Harness.Audit.Inputs.{
  RawManifest, RawSnapshot, RawExpectation, Loaded, loaded, rejected, then_load, loaded_cons,
  load_manifest, load_expectations, matching_topics, expectations_of, expectation_of, keys_in,
  same_topics, same_nodes,
}
use act_sim_scope_infra.Harness.Audit.Exact.{expected_keys}
use act_sim_scope_infra.Harness.Audit.Verdicts.{
  Verdict, pass, fail, inconclusive, AuditReport, analyze, findings_of,
}
use act_sim_scope_infra.Harness.Audit.Passed.{analyze-pass}

abbrev pub loaded_part {ℓ} : {A : Type ℓ} → Loaded A → Option A
loaded_part (loaded a) = some a
loaded_part (rejected error) = none

abbrev pub errors_of {ℓ} : {A : Type ℓ} → Loaded A → List EvidenceError
errors_of (loaded a) = []
errors_of (rejected error) = error ∷ []

-- The `{}` of a rejected file
abbrev pub topics_or_empty : Loaded Expectations → Expectations
topics_or_empty (loaded expectations) = expectations
topics_or_empty (rejected error) = []

module _ (log : String → Log) (run_id : String) (manifest_file : Option RawManifest)
    (snapshot : Option RawSnapshot) where
  abbrev pub manifest_in : Manifest
  manifest_in = or_empty (loaded_part (load_manifest run_id manifest_file))

  abbrev pub expectations_in : Expectations
  expectations_in =
      topics_or_empty
        (load_expectations run_id snapshot (loaded_part (load_manifest run_id manifest_file)))

  unfoldable pub audit : AuditReport
  audit =
      let manifest = load_manifest run_id manifest_file in
      let expectations = load_expectations run_id snapshot (loaded_part manifest) in
      let evidence = load_events log run_id manifest_in.nodes in
      analyze evidence.events evidence.paths
        (evidence.errors ++ (errors_of manifest ++ errors_of expectations)) manifest_in
        expectations_in

-- `return 0 if report["verdict"] == "pass" else 1`
abbrev pub exit_code : Verdict → ℕ
exit_code pass = 0
exit_code verdict = 1

exit_code-pass : (v : Verdict) → exit_code v ≡ 0 → v ≡ pass
exit_code-pass pass h = refl
exit_code-pass fail h = absurd (ground (arith, h))
exit_code-pass inconclusive h = absurd (ground (arith, h))

module _ (manifest : Manifest) where
  abbrev IsKnown : String × Expectation → Type 0
  IsKnown x = contains x.0 manifest.topics ≡ true

  abbrev AreKnown : Loaded Expectations → Type 0
  AreKnown (loaded expectations) = All IsKnown expectations
  AreKnown (rejected error) = Unit

  loaded_cons-AreKnown :
      (topic : String) (expectation : Loaded Expectation) (rest : Loaded Expectations)
      → contains topic manifest.topics ≡ true
      → AreKnown rest
      → AreKnown (then_load expectation (λ e. loaded_cons (topic, e) rest))
  loaded_cons-AreKnown topic (rejected error) rest h hs = tt
  loaded_cons-AreKnown topic (loaded e) (rejected error) h hs = tt
  loaded_cons-AreKnown topic (loaded e) (loaded rest) h hs = (h, hs)

  expectations_of-AreKnown :
      (raw : Dict String (Option RawExpectation))
      → keys_in raw manifest.topics ≡ true
      → AreKnown (expectations_of raw)
  unfolding expectations_of
  expectations_of-AreKnown [] h = tt
  expectations_of-AreKnown ((topic, r) ∷ rest) h =
      loaded_cons-AreKnown topic (expectation_of topic r) (expectations_of rest) (ground (arith, h))
        (expectations_of-AreKnown rest (ground (arith, h)))

matching_topics-AreKnown :
    (manifest : Manifest) (topics : Option (Dict String (Option RawExpectation)))
    → AreKnown manifest (matching_topics manifest topics)
unfolding matching_topics
matching_topics-AreKnown manifest none = tt
matching_topics-AreKnown manifest (some topics) =
    elim (Bool-cases (same_topics topics manifest.topics)) [
      | inl b ↦ rw b (expectations_of-AreKnown manifest topics (ground (arith, b)))
      | inr b ↦ rw b tt
    ]

load_expectations-AreKnown :
    (run_id : String) (snapshot : Option RawSnapshot) (manifest : Option Manifest)
    → AreKnown (or_empty manifest) (load_expectations run_id snapshot manifest)
unfolding load_expectations
load_expectations-AreKnown run_id none manifest = tt
load_expectations-AreKnown run_id (some raw) manifest =
    elim (Bool-cases (is_run run_id raw.run_id)) [
      | inr a ↦ rw a tt
      | inl a ↦ elim (Bool-cases (same_nodes raw.nodes manifest)) [
        | inr b ↦ rw (a, b) tt
        | inl b ↦ rw (a, b) (matching_topics-AreKnown (or_empty manifest) raw.topics)
      ]
    ]

AreKnown-topics :
    (manifest : Manifest) (r : Loaded Expectations)
    → AreKnown manifest r
    → All (IsKnown manifest) (topics_or_empty r)
AreKnown-topics manifest (loaded expectations) h = h
AreKnown-topics manifest (rejected error) h = tt

module _ (log : String → Log) (run_id : String) (manifest_file : Option RawManifest)
    (snapshot : Option RawSnapshot) where
  -- The events that the audit reads, for the nodes of the manifest.
  abbrev pub events_in : List Event
  events_in = (load_events log run_id (manifest_in log run_id manifest_file snapshot).nodes).events

  -- When the script exits with 0, each delivery on a topic that has an expectation, whatever its source,
  -- sequence and receiver, was received exactly as often as the expectations say, which is once or never,
  -- and a delivery on another topic is not expected. Received events on topics without an expectation
  -- are not looked at.
  pub audit-pass :
      (key : DeliveryKey)
      → exit_code (audit log run_id manifest_file snapshot).verdict ≡ 0
      → (occurrences key
            (keys_of (receives_of (expectations_in log run_id manifest_file snapshot) events_in))
          ≡ occurrences key (
              expected_keys
                (findings_of
                  (expectations_in log run_id manifest_file snapshot)
                  events_in).expected))
        × (occurrences key (
              expected_keys
                (findings_of
                  (expectations_in log run_id manifest_file snapshot)
                  events_in).expected)
            ≤ 1)
  unfolding audit
  audit-pass key h =
      let manifest = load_manifest run_id manifest_file in
      let expectations = load_expectations run_id snapshot (loaded_part manifest) in
      let evidence = load_events log run_id (or_empty (loaded_part manifest)).nodes in
      analyze-pass evidence.events evidence.paths
        (evidence.errors ++ (errors_of manifest ++ errors_of expectations))
        (or_empty (loaded_part manifest)) (topics_or_empty expectations) key
        (AreKnown-topics (or_empty (loaded_part manifest)) expectations
          (load_expectations-AreKnown run_id snapshot (loaded_part manifest)))
        (exit_code-pass (audit log run_id manifest_file snapshot).verdict h)
