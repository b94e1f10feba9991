-- ===== src/Dashboard/WireDelivery/Rows.antt =====
-- `snapshot` of gui/mesh_dashboard/server/wire_delivery.py: the rows of the delivery table, one for each
-- flow. The rows stand in the order of their first message, and their percentages are left as counts.
pub mod Balance
use act_sim_scope_infra.Common.{
  ℕ, zero, suc, ◌+◌, ◌-◌, ◌*◌, String, List, [], ◌∷◌, ◌++◌, Bool, true, false, not, ◌&&◌, ◌||◌,
  Option, none, some, ltb, leb, ◌==◌, if◌then◌else◌, Key, Dict, lookup, contains, insert,
  get_default, string_key, nat_key, pair_key, keep, length, max, str_eq, ◌↔◌, ◌≡◌, arith, is_some,
}
use Prim.Native.String.{◌++◌ as text_append}
use act_sim_scope_infra.Wire.Endpoints.{Reliability}
use act_sim_scope_infra.Dashboard.WireDelivery.{
  Identity, Observation, Endpoint, Store, WireDelivery, second,
}

abbrev pub millisecond : ℕ
millisecond = 1000 * 1000

abbrev pub reliability_code : Reliability → ℕ
reliability_code Reliability.best_effort = 0
reliability_code Reliability.reliable = 1
reliability_code Reliability.unknown = 2

abbrev pub reliability_beq : Reliability → Reliability → Bool
reliability_beq a b = reliability_code a == reliability_code b

pub reliability_beq_iff : (a b : Reliability) → (reliability_beq a b ≡ true) ↔ (a ≡ b)
reliability_beq_iff Reliability.best_effort Reliability.best_effort = ground arith
reliability_beq_iff Reliability.best_effort Reliability.reliable = ground arith
reliability_beq_iff Reliability.best_effort Reliability.unknown = ground arith
reliability_beq_iff Reliability.reliable Reliability.best_effort = ground arith
reliability_beq_iff Reliability.reliable Reliability.reliable = ground arith
reliability_beq_iff Reliability.reliable Reliability.unknown = ground arith
reliability_beq_iff Reliability.unknown Reliability.best_effort = ground arith
reliability_beq_iff Reliability.unknown Reliability.reliable = ground arith
reliability_beq_iff Reliability.unknown Reliability.unknown = ground arith

instance abbrev pub reliability_key : Key Reliability
reliability_key = record { same = reliability_beq; same_iff = reliability_beq_iff }

-- A message of a flow.
abbrev pub Message : Type 0
Message = Identity × Observation

-- The reliability, the topic, and the nodes at both ends.
abbrev pub Flow : Type 0
Flow = Reliability × (String × (String × String))

-- `metadata.get("topic") or "Unknown topic (" + ... + ")"`
abbrev pub topic_or_unknown : Option String → String → String
topic_or_unknown none guid = text_append "Unknown topic (" (text_append guid ")")
topic_or_unknown (some topic) guid =
    if str_eq topic "" then text_append "Unknown topic (" (text_append guid ")") else topic

pub flow_of : Dict (ℕ × String) Endpoint → Observation → Flow
flow_of endpoints o = elim (lookup (o.domain, o.writer_guid) endpoints) [
  | none ↦ (o.reliability, (topic_or_unknown o.topic o.writer_guid, (o.source, o.recipient)))
  | some m ↦
      (m.reliability, (topic_or_unknown (some m.topic) o.writer_guid, (o.source, o.recipient)))
]

-- `now - window_ms * 1_000_000 <= sent["timestamp_ns"] <= now`
abbrev pub in_window : ℕ → ℕ → Observation → Bool
in_window now window_ms o = leb (now - window_ms * millisecond) o.timestamp && leb o.timestamp now

-- The first loop, with `flows` so far.
pub group_flows :
    Dict (ℕ × String) Endpoint → ℕ → ℕ → Store → Dict Flow (List Message) → Dict Flow (List Message)
unfolding flow_of
group_flows endpoints now window_ms [] flows = flows
group_flows endpoints now window_ms ((key, o) ∷ sent) flows =
    let flow = flow_of endpoints o in
    group_flows endpoints now window_ms sent (
      if in_window now window_ms o
      then insert flow (get_default flow [] flows ++ (key, o) ∷ []) flows
      else flows)

pub record Row : Type 0 where
  pub flow : Flow
  pub sent : ℕ
  pub received : ℕ
  pub settled : ℕ
  pub settled_received : ℕ
  pub lost : ℕ
  pub pending : ℕ
  pub settle_ms : ℕ
  pub recoveries : List ℕ
  pub sent_event_version : ℕ
  pub received_event_version : ℕ

abbrev pub settle_of : Reliability → ℕ
settle_of Reliability.reliable = 15000
settle_of Reliability.best_effort = 2000
settle_of Reliability.unknown = 2000

-- `now - event["timestamp_ns"] >= settle_ms * 1_000_000`
abbrev pub is_settled : ℕ → ℕ → Message → Bool
is_settled now settle_ms m = leb (settle_ms * millisecond) (now - m.1.timestamp)

abbrev pub is_received : Store → Message → Bool
is_received received m = contains m.0 received

-- How many messages pass a test.
abbrev pub tally : (Message → Bool) → List Message → ℕ
tally p [] = 0
tally p (m ∷ ms) = (if p m then 1 else 0) + tally p ms

-- `max(...)` over the messages, 0 for none
abbrev pub latest : (Message → ℕ) → List Message → ℕ
latest f [] = 0
latest f (m ∷ ms) = max (f m) (latest f ms)

abbrev pub received_at : Store → Message → ℕ
received_at received m = elim (lookup m.0 received) [ none ↦ 0 | some o ↦ o.timestamp ]

-- The time to the completion of a message that was sent again before it was complete.
pub recovery_of : ℕ → Observation → Option Observation → Option Observation → List ℕ
recovery_of now sent (some received) (some retry) =
    if ltb sent.timestamp retry.timestamp
      && (leb retry.timestamp received.completed && leb received.completed now)
    then (received.completed - sent.timestamp) ∷ []
    else []
recovery_of now sent received retry = []

pub recoveries_of : ℕ → WireDelivery → List Message → List ℕ
unfolding recovery_of
recoveries_of now w [] = []
recoveries_of now w ((key, o) ∷ ms) =
    recovery_of now o (lookup key w.received) (lookup key w.retransmitted) ++ recoveries_of now w ms

abbrev pub is_reliable : Reliability → Bool
is_reliable Reliability.reliable = true
is_reliable Reliability.best_effort = false
is_reliable Reliability.unknown = false

-- One round of the second loop.
pub row_of : ℕ → WireDelivery → Flow → List Message → Row
unfolding recoveries_of
row_of now w flow messages =
    let settle_ms = settle_of flow.0 in
    let settled = keep (is_settled now settle_ms) messages in
    let settled_received = tally (is_received w.received) settled in
    record {
      flow = flow;
      sent = length messages;
      received = tally (is_received w.received) messages;
      settled = length settled;
      settled_received = settled_received;
      lost = length settled - settled_received;
      pending =
          tally
            (λ m.
              not (is_received w.received m) && ltb (now - m.1.timestamp) (settle_ms * millisecond))
            messages;
      settle_ms = settle_ms;
      recoveries = if is_reliable flow.0 then recoveries_of now w messages else [];
      sent_event_version = latest (λ m. m.1.timestamp) messages;
      received_event_version = latest (received_at w.received) messages;
    }

pub rows_of : ℕ → WireDelivery → Dict Flow (List Message) → List Row
unfolding row_of
rows_of now w [] = []
rows_of now w ((flow, messages) ∷ flows) = row_of now w flow messages ∷ rows_of now w flows

-- `snapshot`
unfoldable pub snapshot : ℕ → ℕ → WireDelivery → List Row
unfolding group_flows rows_of
snapshot now window_ms w = rows_of now w (group_flows w.endpoints now window_ms w.sent [])
