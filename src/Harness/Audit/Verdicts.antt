-- ===== src/Harness/Audit/Verdicts.antt =====
-- The second part of `analyze` of delivery_audit_report.py: the summary of each topic and the verdict. A
-- percentage is compared with its threshold over natural numbers, without the division, and not kept.
use act_sim_scope_infra.Common.{
  ℕ, ◌-◌, ◌*◌, String, List, [], ◌∷◌, ◌++◌, Bool, true, false, not, ◌&&◌, ◌||◌, if◌then◌else◌,
  str_eq, ltb, keep, any, length, Dict, string_key,
}
use act_sim_scope_infra.Common.Sort.{sorted, string_lt, and_then, is_lt}
use act_sim_scope_infra.Harness.Audit.{Event, Requirement, Manifest, EvidenceError}
use act_sim_scope_infra.Harness.Audit.Deliveries.{
  DeliveryKey, Expectations, sends_of, receives_of, received_keys, expect_all, match_all, is_nil,
}
use Prim.Native.Nat.{compare as compare_nat}
use Prim.Native.String.{compare as compare_string}

pub data Verdict : Type 0 where
  pass fail inconclusive : Verdict

-- What the summaries of a topic are counted from.
pub record Findings : Type 0 where
  pub sends : List Event
  pub expected : List (Event × String)
  pub missing : List DeliveryKey
  pub duplicates : List (DeliveryKey × ℕ)
  pub unexpected : List (DeliveryKey × ℕ)

pub record Summary : Type 0 where
  pub verdict : Verdict
  pub requirement : Requirement
  pub sent : ℕ
  pub expected_deliveries : ℕ
  pub received_expected_deliveries : ℕ
  pub missing : ℕ
  pub duplicates : ℕ
  pub unexpected : ℕ

pub record AuditReport : Type 0 where
  pub verdict : Verdict
  pub event_log_paths : List String
  pub evidence_errors : List EvidenceError
  pub findings : Findings
  pub received_expected_deliveries : ℕ
  pub not_expected : List Event
  pub topics : List (String × Summary)

-- The order of the tuples `sorted(received_keys.items())`.
abbrev pub key_lt : DeliveryKey × ℕ → DeliveryKey × ℕ → Bool
key_lt ((t, (s, (n, r))), c) ((t', (s', (n', r'))), c') = is_lt (
    and_then (compare_string t t') (
      and_then (compare_string s s')
        (and_then (compare_nat n n') (and_then (compare_string r r') (compare_nat c c')))))

abbrev pub requirement_lt : String × Requirement → String × Requirement → Bool
requirement_lt (t, r) (t', r') = string_lt t t'

module _ (topic : String) where
  abbrev pub sent_on : Event → Bool
  sent_on event = str_eq event.topic topic

  abbrev pub expected_on : Event × String → Bool
  expected_on item = str_eq item.0.topic topic

  abbrev pub key_on : DeliveryKey → Bool
  key_on key = str_eq key.0 topic

  abbrev pub counted_on : DeliveryKey × ℕ → Bool
  counted_on item = key_on item.0

unfoldable pub topic_verdict : Bool → Requirement → ℕ → ℕ → ℕ → ℕ → ℕ → Verdict
topic_verdict has_errors requirement sent expected missing duplicates unexpected =
    if has_errors || ltb sent requirement.minimum_sent
    then inconclusive
    else if ltb 0 missing
        || ltb 0 duplicates
        || ltb 0 unexpected
        || ltb 0 expected
          && ltb (100 * (expected - missing)) (requirement.completion_threshold_percent * expected)
    then fail
    else pass

unfoldable pub summary_of : Bool → Findings → String → Requirement → Summary
summary_of has_errors f topic requirement =
    let sent = length (keep (sent_on topic) f.sends) in
    let expected = length (keep (expected_on topic) f.expected) in
    let missing = length (keep (key_on topic) f.missing) in
    let duplicates = length (keep (counted_on topic) f.duplicates) in
    let unexpected = length (keep (counted_on topic) f.unexpected) in
    record {
      verdict = topic_verdict has_errors requirement sent expected missing duplicates unexpected;
      requirement = requirement;
      sent = sent;
      expected_deliveries = expected;
      received_expected_deliveries = expected - missing;
      missing = missing;
      duplicates = duplicates;
      unexpected = unexpected;
    }

unfoldable pub summaries : Bool → Findings → Dict String Requirement → List (String × Summary)
summaries has_errors f [] = []
summaries has_errors f ((topic, requirement) ∷ rs) =
    (topic, summary_of has_errors f topic requirement) ∷ summaries has_errors f rs

abbrev pub is_fail : Verdict → Bool
is_fail fail = true
is_fail verdict = false

abbrev pub is_inconclusive : Verdict → Bool
is_inconclusive inconclusive = true
is_inconclusive verdict = false

unfoldable pub overall : Bool → List (String × Summary) → Verdict
overall no_evidence topics =
    if no_evidence
    then inconclusive
    else if any (λ t. is_fail t.1.verdict) topics
    then fail
    else if any (λ t. is_inconclusive t.1.verdict) topics
    then inconclusive
    else pass

unfoldable pub findings_of : Expectations → List Event → Findings
findings_of expectations events =
    let sends = sends_of expectations events in
    let e = expect_all expectations sends in
    let r = match_all e.expected (received_keys (receives_of expectations events)) in
    record {
      sends = sends;
      expected = e.expected;
      missing = r.missing;
      duplicates = r.duplicates;
      unexpected = sorted key_lt r.left;
    }

unfoldable pub analyze :
    List Event → List String → List EvidenceError → Manifest → Expectations → AuditReport
analyze events event_paths evidence_errors manifest expectations =
    let e = expect_all expectations (sends_of expectations events) in
    let errors = evidence_errors ++ e.errors in
    let f = findings_of expectations events in
    let topics = summaries (not (is_nil errors)) f (sorted requirement_lt manifest.topics) in
    record {
      verdict = overall (is_nil event_paths || not (is_nil errors)) topics;
      event_log_paths = event_paths;
      evidence_errors = errors;
      findings = f;
      received_expected_deliveries = length f.expected - length f.missing;
      not_expected = e.not_expected;
      topics = topics;
    }
