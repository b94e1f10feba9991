-- ===== src/Harness/Audit/Evidence.antt =====
-- `load_events` of delivery_audit_report.py. A log is the node's `events.jsonl`, absent or its lines, and a
-- line that is no JSON is `none`; an event's fields are read, `none` for one that is missing.
use act_sim_scope_infra.Common.{
  ℕ, suc, String, List, [], ◌∷◌, ◌++◌, Bool, false, Option, none, some, if◌then◌else◌, str_eq,
}
use act_sim_scope_infra.Harness.Audit.{
  Event, EvidenceError, missing_event_log, invalid_json, missing_fields,
}
use act_sim_scope_infra.Harness.Audit.Deliveries.{is_nil}

pub record RawEvent : Type 0 where
  pub run_id : Option String
  pub event : Option String
  pub topic : Option String
  pub source_node : Option String
  pub sequence : Option ℕ
  pub node : Option String
  pub destination : Option String

abbrev pub Log : Type 0
Log = Option (List (Option RawEvent))

pub record Evidence : Type 0 where
  pub events : List Event
  pub paths : List String
  pub errors : List EvidenceError

abbrev pub is_run : String → Option String → Bool
is_run run_id none = false
is_run run_id (some value) = str_eq value run_id

abbrev pub named_if_missing {ℓ} : {A : Type ℓ} → String → Option A → List String
named_if_missing name none = name ∷ []
named_if_missing name (some value) = []

-- `sorted(required - event.keys())`
unfoldable pub missing_of : RawEvent → List String
missing_of e =
    named_if_missing "event" e.event
    ++ (named_if_missing "node" e.node
        ++ (named_if_missing "sequence" e.sequence
            ++ (named_if_missing "source_node" e.source_node ++ named_if_missing "topic" e.topic)))

abbrev pub text_or_empty : Option String → String
text_or_empty none = ""
text_or_empty (some s) = s

abbrev pub number_or_zero : Option ℕ → ℕ
number_or_zero none = 0
number_or_zero (some n) = n

-- Read only when no required field is missing.
abbrev pub event_of : RawEvent → Event
event_of e = record {
  event = text_or_empty e.event;
  topic = text_or_empty e.topic;
  source_node = text_or_empty e.source_node;
  sequence = number_or_zero e.sequence;
  node = text_or_empty e.node;
  destination = e.destination;
}

unfoldable pub read_line : String → String → ℕ → Option RawEvent → Evidence → Evidence
read_line run_id node number none r = record r { errors = invalid_json node number ∷ r.errors }
read_line run_id node number (some e) r =
    if is_run run_id e.run_id
    then if is_nil (missing_of e)
      then record r { events = event_of e ∷ r.events }
      else record r { errors = missing_fields (missing_of e) node number ∷ r.errors }
    else r

-- `enumerate(event_file, 1)`, from `number` on
unfoldable pub read_lines : String → String → ℕ → List (Option RawEvent) → Evidence → Evidence
read_lines run_id node number [] r = r
read_lines run_id node number (line ∷ lines) r =
    read_line run_id node number line (read_lines run_id node (suc number) lines r)

unfoldable pub read_log : String → String → Log → Evidence → Evidence
read_log run_id node none r = record r { errors = missing_event_log node ∷ r.errors }
read_log run_id node (some lines) r =
    read_lines run_id node 1 lines (record r { paths = node ∷ r.paths })

unfoldable pub load_events : (String → Log) → String → List String → Evidence
load_events log run_id [] = record { events = []; paths = []; errors = [] }
load_events log run_id (node ∷ nodes) =
    read_log run_id node (log node) (load_events log run_id nodes)
