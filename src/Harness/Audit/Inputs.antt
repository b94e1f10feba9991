-- ===== src/Harness/Audit/Inputs.antt =====
-- `load_manifest` and `load_expectations` of delivery_audit_report.py. `none` is a file that cannot be read
-- or is no JSON.
use act_sim_scope_infra.Common.{
  ℕ, String, List, [], ◌∷◌, Bool, true, false, ◌&&◌, Option, none, some, if◌then◌else◌, all, Dict,
  contains, string_key, list_key,
}
use act_sim_scope_infra.Harness.Audit.{
  Expectation, RuleKind, Requirement, Manifest, EvidenceError, invalid_manifest, manifest_run_id,
  no_node_list, no_topic_requirements, not_an_object, no_minimum_sent, no_completion_threshold,
  invalid_expectations, expectations_run_id, node_list_mismatch, topics_mismatch,
  invalid_expectation, or_empty,
}
use act_sim_scope_infra.Harness.Audit.Deliveries.{Expectations}
use act_sim_scope_infra.Harness.Audit.Evidence.{is_run}

pub record RawRequirement : Type 0 where
  pub minimum_sent : Option ℕ
  pub completion_threshold_percent : Option ℕ
  pub priority : Option String

pub record RawManifest : Type 0 where
  pub run_id : Option String
  pub nodes : Option (List (Option String))
  pub topics : Option (Dict String (Option RawRequirement))

pub record RawRule : Type 0 where
  pub kind : Option RuleKind
  pub nodes : Option (List String)

pub record RawExpectation : Type 0 where
  pub enabled : Option Bool
  pub source_nodes : Option (List String)
  pub recipient_rule : Option RawRule

pub record RawSnapshot : Type 0 where
  pub run_id : Option String
  pub nodes : Option (List String)
  pub topics : Option (Dict String (Option RawExpectation))

-- What is loaded, or the one error.
pub data Loaded {ℓ} (A : Type ℓ) : Type ℓ where
  loaded : A → Loaded A
  rejected : EvidenceError → Loaded A

abbrev pub then_load {ℓ κ} : {A : Type ℓ} {B : Type κ} → Loaded A → (A → Loaded B) → Loaded B
then_load (loaded a) f = f a
then_load (rejected error) f = rejected error

-- `isinstance(..)`, with the error otherwise
abbrev pub required {ℓ} : {A : Type ℓ} → EvidenceError → Option A → Loaded A
required error none = rejected error
required error (some a) = loaded a

abbrev pub loaded_cons {ℓ} : {A : Type ℓ} → A → Loaded (List A) → Loaded (List A)
loaded_cons a (loaded rest) = loaded (a ∷ rest)
loaded_cons a (rejected error) = rejected error

-- `all(isinstance(node, str) for node in nodes)`
abbrev pub node_names : List (Option String) → Loaded (List String)
node_names [] = loaded []
node_names (none ∷ nodes) = rejected no_node_list
node_names (some node ∷ nodes) = loaded_cons node (node_names nodes)

abbrev pub nonempty {ℓ} : {A : Type ℓ} → EvidenceError → List A → Loaded (List A)
nonempty error [] = rejected error
nonempty error (x ∷ xs) = loaded (x ∷ xs)

abbrev pub requirement_of : String → Option RawRequirement → Loaded Requirement
requirement_of topic none = rejected (not_an_object topic)
requirement_of topic (some raw) =
    then_load (required (no_minimum_sent topic) raw.minimum_sent) (λ minimum.
      then_load (required (no_completion_threshold topic) raw.completion_threshold_percent)
        (λ threshold. loaded (record {
          minimum_sent = minimum;
          completion_threshold_percent = threshold;
          priority = raw.priority;
        })))

unfoldable pub requirements_of :
    Dict String (Option RawRequirement) → Loaded (Dict String Requirement)
requirements_of [] = loaded []
requirements_of ((topic, raw) ∷ rest) =
    let later = requirements_of rest in
    then_load (requirement_of topic raw) (λ requirement. loaded_cons (topic, requirement) later)

unfoldable pub load_manifest : String → Option RawManifest → Loaded Manifest
load_manifest run_id none = rejected invalid_manifest
load_manifest run_id (some raw) =
    if is_run run_id raw.run_id
    then then_load (required no_node_list raw.nodes) (λ listed.
      then_load (nonempty no_node_list listed) (λ some_nodes.
        then_load (node_names some_nodes) (λ nodes.
          then_load (required no_topic_requirements raw.topics) (λ listed_topics.
            then_load (nonempty no_topic_requirements listed_topics) (λ some_topics.
              then_load (requirements_of some_topics)
                (λ topics. loaded (record { nodes = nodes; topics = topics })))))))
    else rejected manifest_run_id

abbrev pub expectation_of : String → Option RawExpectation → Loaded Expectation
expectation_of topic none = rejected (invalid_expectation topic)
expectation_of topic (some raw) =
    let error = invalid_expectation topic in
    then_load (required error raw.enabled) (λ enabled.
      then_load (required error raw.source_nodes) (λ source_nodes.
        then_load (required error raw.recipient_rule) (λ rule.
          then_load (required error rule.kind) (λ kind.
            then_load (required error rule.nodes) (λ nodes. loaded (record {
              enabled = enabled;
              source_nodes = source_nodes;
              kind = kind;
              nodes = nodes;
            }))))))

unfoldable pub expectations_of : Dict String (Option RawExpectation) → Loaded Expectations
expectations_of [] = loaded []
expectations_of ((topic, raw) ∷ rest) =
    let later = expectations_of rest in
    then_load (expectation_of topic raw) (λ expectation. loaded_cons (topic, expectation) later)

module _ {ℓ κ} {A : Type ℓ} {B : Type κ} where
  abbrev pub keys_in : Dict String A → Dict String B → Bool
  keys_in a b = all (λ x. contains x.0 b) a

-- `set(topics) == set(manifest.get("topics", {}))`
abbrev pub same_topics {ℓ κ} : {A : Type ℓ} {B : Type κ} → Dict String A → Dict String B → Bool
same_topics a b = keys_in a b && keys_in b a

-- `snapshot.get("nodes") == manifest.get("nodes")`
abbrev pub same_nodes : Option (List String) → Option Manifest → Bool
same_nodes none none = true
same_nodes none (some manifest) = false
same_nodes (some nodes) none = false
same_nodes (some nodes) (some manifest) = list_key.same nodes manifest.nodes

unfoldable pub matching_topics :
    Manifest → Option (Dict String (Option RawExpectation)) → Loaded Expectations
matching_topics manifest none = rejected topics_mismatch
matching_topics manifest (some topics) =
    if same_topics topics manifest.topics then expectations_of topics else rejected topics_mismatch

unfoldable pub load_expectations :
    String → Option RawSnapshot → Option Manifest → Loaded Expectations
load_expectations run_id none manifest = rejected invalid_expectations
load_expectations run_id (some raw) manifest =
    if is_run run_id raw.run_id
    then if same_nodes raw.nodes manifest
      then matching_topics (or_empty manifest) raw.topics
      else rejected node_list_mismatch
    else rejected expectations_run_id
