-- ===== src/Dashboard/WireDelivery.antt =====
-- `class WireDelivery` of gui/mesh_dashboard/server/wire_delivery.py. Times are numbers of nanoseconds.
-- `poll` takes the complete lines that it reads, in order, and not the files and their offsets.
pub mod Rows
pub mod Earliest
mod Tests
use act_sim_scope_infra.Common.{
  ℕ, ◌+◌, ◌-◌, ◌*◌, String, List, [], ◌∷◌, ◌++◌, Bool, true, false, not, ◌&&◌, ◌||◌, Option, none,
  some, ltb, leb, ◌==◌, if◌then◌else◌, str_eq, Dict, lookup, contains, insert, get_default,
  string_key, nat_key, pair_key, keep, length,
}
use act_sim_scope_infra.Dashboard.Json.{
  Json, Object, integer, boolean, string, ◌>>=◌, ◌>>◌, require, get, positive_of, text_of, name_of,
  optional_text, guid_of,
}
use act_sim_scope_infra.Wire.Endpoints.{Reliability}

pub data Kind : Type 0 where
  sent received retransmitted endpoint : Kind

-- The domain, the writer, the sequence number, and the two addresses.
abbrev pub Identity : Type 0
Identity = ℕ × (String × (ℕ × (String × String)))

-- What is read again of an event that is kept; `completed` is the time stamp when it is not given.
pub record Observation : Type 0 where
  pub timestamp : ℕ
  pub completed : ℕ
  pub domain : ℕ
  pub writer_guid : String
  pub source : String
  pub recipient : String
  pub topic : Option String
  pub reliability : Reliability

pub record Endpoint : Type 0 where
  pub timestamp : ℕ
  pub topic : String
  pub reliability : Reliability

abbrev pub Store : Type 0
Store = Dict Identity Observation

pub record WireDelivery : Type 0 where
  pub run_id : Option String
  pub sent : Store
  pub received : Store
  pub retransmitted : Store
  pub endpoints : Dict (ℕ × String) Endpoint
  pub invalid_records : ℕ

abbrev pub fresh : Option String → WireDelivery
fresh run_id = record {
  run_id = run_id;
  sent = [];
  received = [];
  retransmitted = [];
  endpoints = [];
  invalid_records = 0;
}

-- `value == 1`: `True` is equal to 1, too; a fraction 1.0 is not considered.
abbrev pub is_one : Json → Bool
is_one (integer n) = n == 1
is_one (boolean b) = b
is_one value = false

abbrev pub kind_of : String → Option Kind
kind_of s =
    if str_eq s "sent"
    then some Kind.sent
    else if str_eq s "received"
    then some Kind.received
    else if str_eq s "endpoint"
    then some Kind.endpoint
    else if str_eq s "retransmitted"
    then some Kind.retransmitted
    else none

-- `type(value) is int and 0 <= value <= 232`
abbrev pub domain_of : Json → Option ℕ
domain_of (integer n) = if leb n 232 then some n else none
domain_of value = none

abbrev pub reliability_named : String → Option Reliability
reliability_named s =
    if str_eq s "reliable"
    then some Reliability.reliable
    else if str_eq s "best_effort"
    then some Reliability.best_effort
    else if str_eq s "unknown"
    then some Reliability.unknown
    else none

-- `event.get("reliability", "unknown")`, when it is one of the three
abbrev pub reliability_of : Option Json → Option Reliability
reliability_of none = some Reliability.unknown
reliability_of (some (string s)) = reliability_named s
reliability_of (some value) = none

-- `event.get("completed_at_ns", event["timestamp_ns"])`, when it is not before the time stamp
abbrev pub completed_of : ℕ → Option Json → Option ℕ
completed_of timestamp none = some timestamp
completed_of timestamp (some (integer n)) = if ltb n timestamp then none else some n
completed_of timestamp (some value) = none

-- What an event says, when it is valid.
pub data Parsed : Type 0 where
  announced : ℕ × String → Endpoint → Parsed
  observed : Kind → Identity → Observation → Parsed

-- `if kind == "endpoint"`
pub parse_endpoint : ℕ → ℕ → String → Object → Option Parsed
parse_endpoint timestamp domain guid e = do
  topic ← name_of (get "topic" e)
  reliability ← reliability_of (lookup "reliability" e)
  some (
      announced (domain, guid)
        (record { timestamp = timestamp; topic = topic; reliability = reliability }))

-- `if kind == "retransmitted"`
pub check_retry : Kind → ℕ → Object → Option (Unit {0})
check_retry Kind.retransmitted timestamp e = do
  requested ← positive_of (get "requested_at_ns" e)
  require (leb requested timestamp)
  reader ← guid_of (get "reader_guid" e)
  some tt
check_retry kind timestamp e = some tt

-- The node at whose interface an event is observed.
abbrev pub observer : Kind → String → String → String
observer Kind.received source recipient = recipient
observer kind source recipient = source

pub parse_sample : Kind → ℕ → ℕ → String → Object → Option Parsed
unfolding check_retry
parse_sample kind timestamp domain guid e = do
  sequence ← positive_of (get "sequence" e)
  source ← name_of (get "source" e)
  recipient ← name_of (get "recipient" e)
  source_ip ← name_of (get "source_ip" e)
  destination_ip ← name_of (get "destination_ip" e)
  node ← name_of (get "node" e)
  reliability ← reliability_of (lookup "reliability" e)
  topic ← optional_text (get "topic" e)
  completed ← completed_of timestamp (lookup "completed_at_ns" e)
  check_retry kind timestamp e
  require (str_eq node (observer kind source recipient))
  some (
      observed kind (domain, (guid, (sequence, (source_ip, destination_ip))))
        (record {
          timestamp = timestamp;
          completed = completed;
          domain = domain;
          writer_guid = guid;
          source = source;
          recipient = recipient;
          topic = topic;
          reliability = reliability;
        }))

abbrev pub parse_kind : Kind → ℕ → ℕ → String → Object → Option Parsed
parse_kind Kind.endpoint timestamp domain guid e = parse_endpoint timestamp domain guid e
parse_kind kind timestamp domain guid e = parse_sample kind timestamp domain guid e

-- The checks of `ingest`, in an order that does not matter, as each raises.
pub parse : Object → Option Parsed
unfolding parse_endpoint parse_sample
parse e = do
  scope ← text_of (get "scope" e)
  require (str_eq scope "wan_wire" && is_one (get "schema_version" e))
  name ← text_of (get "event" e)
  kind ← kind_of name
  timestamp ← positive_of (get "timestamp_ns" e)
  domain ← domain_of (get "domain_id" e)
  guid ← guid_of (get "writer_guid" e)
  parse_kind kind timestamp domain guid e

-- By which of two observations of a sample the earlier one is known.
abbrev pub version : Kind → Observation → ℕ
version Kind.received o = o.completed
version kind o = o.timestamp

-- The earliest observation of a sample is kept.
pub keep_first : Kind → Identity → Observation → Store → Store
keep_first kind key o store = elim (lookup key store) [
  | none ↦ insert key o store
  | some p ↦ if ltb (version kind o) (version kind p) then insert key o store else store
]

-- The latest announcement of an endpoint is kept.
pub note_endpoint : ℕ × String → Endpoint → Dict (ℕ × String) Endpoint → Dict (ℕ × String) Endpoint
note_endpoint key m endpoints = elim (lookup key endpoints) [
  | none ↦ insert key m endpoints
  | some p ↦ if leb p.timestamp m.timestamp then insert key m endpoints else endpoints
]

-- What `ingest` does with a valid event.
pub store_event : Parsed → WireDelivery → WireDelivery
unfolding keep_first note_endpoint
store_event (announced key m) w = record w { endpoints = note_endpoint key m w.endpoints }
store_event (observed Kind.sent key o) w = record w { sent = keep_first Kind.sent key o w.sent }
store_event (observed Kind.received key o) w = record w {
  received = keep_first Kind.received key o w.received;
}
store_event (observed Kind.retransmitted key o) w = record w {
  retransmitted = keep_first Kind.retransmitted key o w.retransmitted;
}
store_event (observed Kind.endpoint key o) w = w

-- `ingest`, with `none` for the exception
pub ingest : Object → WireDelivery → Option WireDelivery
unfolding parse store_event
ingest e w = do p ← parse e; some (store_event p w)

-- One line of `poll`: `none` is a line that is no JSON object.
pub poll_line : String → Option Object → WireDelivery → WireDelivery
unfolding ingest
poll_line run_id none w = record w { invalid_records = w.invalid_records + 1 }
poll_line run_id (some e) w = elim (text_of (get "run_id" e)) [
  | none ↦ w
  | some r ↦
      if str_eq r run_id
      then elim (ingest e w) [
        | none ↦ record w { invalid_records = w.invalid_records + 1 }
        | some v ↦ v
      ]
      else w
]

abbrev pub poll_lines : String → List (Option Object) → WireDelivery → WireDelivery
poll_lines run_id [] w = w
poll_lines run_id (line ∷ lines) w = poll_lines run_id lines (poll_line run_id line w)

abbrev pub second : ℕ
second = 1000 * 1000 * 1000

-- Observations of the last 120 seconds.
abbrev pub recent : ℕ → Store → Store
recent now = keep (λ entry. leb (now - 120 * second) entry.1.timestamp)

abbrev pub same_run : String → Option String → Bool
same_run run_id none = false
same_run run_id (some r) = str_eq run_id r

-- `poll` at the time `now`; another run begins anew.
pub poll : ℕ → String → List (Option Object) → WireDelivery → WireDelivery
unfolding poll_line
poll now run_id lines w0 =
    let start = if same_run run_id w0.run_id then w0 else fresh (some run_id) in
    let w = poll_lines run_id lines start in
    record w {
      sent = recent now w.sent;
      received = recent now w.received;
      retransmitted = recent now w.retransmitted;
    }
