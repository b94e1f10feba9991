-- ===== src/Harness/Expectations.antt =====
-- harness_v2/scripts/compile_delivery_expectations.py: `compile_expectations`, from a manifest whose fields
-- have the types that the code reads; a `ValueError` is `none`. `shared_platform_locations` is `none`
-- when it is no boolean.
pub mod Names
pub mod Accepted
mod Tests
use text.Mathlib.Text.{starts_with}
use act_sim_scope_infra.Common.{
  ℕ, String, List, [], ◌∷◌, ◌++◌, Bool, true, false, not, ◌&&◌, ◌||◌, Option, none, some,
  if◌then◌else◌, str_eq, any, keep, Dict, contains, string_key, map,
}
use act_sim_scope_infra.Dashboard.Json.{◌>>=◌, ◌>>◌, require}
use act_sim_scope_infra.Harness.Audit.{
  Requirement, RuleKind, fixed_nodes, fixed_nodes_except_source, sample_destination,
}
use act_sim_scope_infra.Harness.Expectations.Names.{event_node_name}

-- The manifest that the compiler reads.
pub record Baseline : Type 0 where
  pub run_id : String
  pub nodes : List String
  pub topics : Dict String Requirement
  pub shared_platform_locations : Option Bool

pub record Rule : Type 0 where
  pub kind : RuleKind
  pub nodes : List String

pub record TopicExpectation : Type 0 where
  pub route : String
  pub enabled : Bool
  pub source_nodes : List String
  pub recipient_rule : Rule

pub record Snapshot : Type 0 where
  pub schema_version : ℕ
  pub run_id : String
  pub nodes : List String
  pub topics : Dict String TopicExpectation

-- `len(nodes) != len(set(nodes))`
abbrev pub has_duplicates : List String → Bool
has_duplicates [] = false
has_duplicates (node ∷ nodes) = any (str_eq node) nodes || has_duplicates nodes

-- `[event_node_name(node) for node in ids]`
unfoldable pub event_names : List String → Option (List String)
event_names [] = some []
event_names (id ∷ ids) =
    let rest = event_names ids in
    event_node_name id >>= λ name. rest >>= λ names. some (name ∷ names)

-- `control_ids != ["control_20"]`, where each of the identifiers is `control_20`
abbrev pub is_one : List String → Bool
is_one [] = false
is_one (x ∷ []) = true
is_one (x ∷ (y ∷ xs)) = false

abbrev pub is_some_list : List String → Bool
is_some_list [] = false
is_some_list (x ∷ xs) = true

-- `set(required_topics) == expected_topics`
unfoldable pub has_expected_topics : Dict String Requirement → Bool
has_expected_topics topics =
    contains "ControlCommand" topics
    && contains "PlatformInitStatus" topics
    && not (any (λ t. not (str_eq t.0 "ControlCommand" || str_eq t.0 "PlatformInitStatus")) topics)

unfoldable pub snapshot_of : Baseline → List String → List String → Bool → Snapshot
snapshot_of b control_nodes platform_nodes shared = record {
  schema_version = 1;
  run_id = b.run_id;
  nodes = b.nodes;
  topics =
      (
        "ControlCommand",
        record {
          route = "control_command";
          enabled = true;
          source_nodes = control_nodes;
          recipient_rule = record { kind = sample_destination; nodes = platform_nodes };
        },
      )
      ∷ (
        "PlatformInitStatus",
        record {
          route = "platform_init_status";
          enabled = true;
          source_nodes = platform_nodes;
          recipient_rule = record {
            kind = if shared then fixed_nodes_except_source else fixed_nodes;
            nodes = if shared then control_nodes ++ platform_nodes else control_nodes;
          };
        },
      )
      ∷ [];
}

unfoldable pub compile_expectations : Baseline → Option Snapshot
compile_expectations b = do
  require (not (has_duplicates b.nodes))
  let control_ids = keep (λ node. str_eq node "control_20") b.nodes
  let platform_ids = keep (λ node. starts_with node "platform_") b.nodes
  require (is_one control_ids && is_some_list platform_ids)
  control_nodes ← event_names control_ids
  platform_nodes ← event_names platform_ids
  require (has_expected_topics b.topics)
  shared ← b.shared_platform_locations
  some (snapshot_of b control_nodes platform_nodes shared)
