-- ===== src/Harness/Audit.antt =====
-- harness_v2/scripts/delivery_audit_report.py: the events, the manifest and the expectations that it reads,
-- and the errors it reports. A field is `none` when it is missing or of another type; a sequence, a
-- minimum and a threshold are natural numbers.
pub mod Evidence
pub mod Inputs
pub mod Deliveries
pub mod Verdicts
pub mod Exact
pub mod Conserved
pub mod Judged
pub mod Main
pub mod Expected
pub mod Passed
mod Tests
use act_sim_scope_infra.Common.{
  ℕ, String, List, [], ◌∷◌, Bool, true, false, not, ◌&&◌, Option, none, some, if◌then◌else◌, str_eq,
  any, keep, Dict, string_key,
}

pub record Event : Type 0 where
  pub event : String
  pub topic : String
  pub source_node : String
  pub sequence : ℕ
  pub node : String
  pub destination : Option String

pub data RuleKind : Type 0 where
  fixed_nodes fixed_nodes_except_source sample_destination : RuleKind

pub record Expectation : Type 0 where
  pub enabled : Bool
  pub source_nodes : List String
  pub kind : RuleKind
  pub nodes : List String

pub record Requirement : Type 0 where
  pub minimum_sent : ℕ
  pub completion_threshold_percent : ℕ
  pub priority : Option String

pub record Manifest : Type 0 where
  pub nodes : List String
  pub topics : Dict String Requirement

-- The manifest that a rejected one, `{}`, is read as: each `get` has an empty default.
abbrev pub or_empty : Option Manifest → Manifest
or_empty none = record { nodes = []; topics = [] }
or_empty (some manifest) = manifest

-- The texts that the script appends to its errors, with what stands in them.
pub data EvidenceError : Type 0 where
  missing_event_log : String → EvidenceError
  invalid_json : String → ℕ → EvidenceError
  missing_fields : List String → String → ℕ → EvidenceError
  invalid_manifest manifest_run_id no_node_list no_topic_requirements : EvidenceError
  not_an_object no_minimum_sent no_completion_threshold : String → EvidenceError
  invalid_expectations expectations_run_id node_list_mismatch topics_mismatch : EvidenceError
  invalid_expectation : String → EvidenceError
  unexpected_source : String → String → EvidenceError

-- `name in names`
abbrev pub in_names : String → List String → Bool
in_names name = any (str_eq name)

abbrev pub sample_receivers : Option String → List String → List String
sample_receivers none nodes = []
sample_receivers (some destination) nodes =
    if in_names destination nodes then destination ∷ [] else []

abbrev pub receivers_by : RuleKind → Event → List String → List String
receivers_by fixed_nodes event nodes = nodes
receivers_by fixed_nodes_except_source event nodes =
    keep (λ node. not (str_eq node event.source_node)) nodes
receivers_by sample_destination event nodes = sample_receivers event.destination nodes

unfoldable pub expected_receivers : Event → Expectation → List String
expected_receivers event expectation =
    if expectation.enabled then receivers_by expectation.kind event expectation.nodes else []
