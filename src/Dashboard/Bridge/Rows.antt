-- ===== src/Dashboard/Bridge/Rows.antt =====
-- `application_delivery_snapshot` of mesh_bridge.py: the rows of the delivery table. A rate is a fraction, as
-- its numerator and denominator, and so is a percentage; times in the code's units.
pub mod Totals
mod Tests
use Prim.Native.Nat.{compare as compare_nat}
use Prim.Native.String.{compare as compare_string}
use act_sim_scope_infra.Common.{
  ℕ, ◌+◌, ◌-◌, ◌*◌, ◌/◌, ◌%◌, suc, String, List, [], ◌∷◌, ◌++◌, Bool, true, false, not, ◌&&◌, ◌||◌,
  Option, none, some, ltb, leb, ◌==◌, if◌then◌else◌, str_eq, keep, length, max, Dict, insert,
  contains, get_default, string_key, nat_key, pair_key, lookup,
}
use act_sim_scope_infra.Common.Sort.{sorted, and_then, is_lt}
use act_sim_scope_infra.Dashboard.Bridge.Mesh.{Mesh, is_platform, reported_status_mode}
use act_sim_scope_infra.Dashboard.Bridge.Recipients.{AuditEvent, expected_recipients}
use act_sim_scope_infra.Dashboard.Bridge.Counts.{version_at}
use act_sim_scope_infra.Dashboard.Bridge.Poll.{FlowGroup, EventKey, AuditState, group_of}

abbrev pub percentage_min_samples : ℕ
percentage_min_samples = 30

abbrev pub delivery_settle_ms : ℕ
delivery_settle_ms = 2000

abbrev pub reliable_delivery_settle_ms : ℕ
reliable_delivery_settle_ms = 15000

abbrev pub is_reliable_topic : String → Bool
is_reliable_topic topic =
    str_eq topic "ControlCommand"
    || str_eq topic "PlatformCommandAck"
    || str_eq topic "RouterHealth"

-- `_delivery_settle_ms`
abbrev pub settle_ms_of : String → ℕ
settle_ms_of topic =
    if is_reliable_topic topic then reliable_delivery_settle_ms else delivery_settle_ms

-- Milliseconds as nanoseconds
abbrev pub ns : ℕ → ℕ
ns ms = ms * 1000000

-- `round` of a fraction, which takes a half to the even side
abbrev pub round_half_even : ℕ → ℕ → ℕ
round_half_even p q =
    let down = p / q in
    if ltb (2 * (p % q)) q || (2 * (p % q) == q) && (down % 2 == 0) then down else suc down

unfoldable pub required_samples_for_full_set : Option (ℕ × ℕ) → ℕ → ℕ
required_samples_for_full_set none window_ms = percentage_min_samples
required_samples_for_full_set (some (p, q)) window_ms =
    max 1 (round_half_even (p * window_ms) (q * 1000))

abbrev pub Flow : Type 0
Flow = FlowGroup × String

abbrev pub Sent : Type 0
Sent = Dict EventKey AuditEvent

abbrev pub sent_before : EventKey × AuditEvent → EventKey × AuditEvent → Bool
sent_before (k, e) (k', e') = ltb e.sent_at_ns e'.sent_at_ns

-- The first and the last time of a list of events in the order of their times
abbrev pub first_sent : Sent → ℕ
first_sent [] = 0
first_sent ((k, e) ∷ events) = e.sent_at_ns

abbrev pub last_sent : Sent → ℕ
last_sent [] = 0
last_sent ((k, e) ∷ []) = e.sent_at_ns
last_sent ((k, e) ∷ (item ∷ events)) = last_sent (item ∷ events)

unfoldable pub send_rate : Sent → Option (ℕ × ℕ)
send_rate events =
    let elapsed_ns = last_sent events - first_sent events in
    if ltb 1 (length events) && ltb 0 elapsed_ns
    then some ((length events - 1) * 1000000000, elapsed_ns)
    else none

pub record Row : Type 0 where
  pub topic : String
  pub source : String
  pub recipient : String
  pub settled : ℕ
  pub sent : ℕ
  pub received : ℕ
  pub settled_received : ℕ
  pub lost : ℕ
  pub pending : ℕ
  pub delivery_percentage : Option (ℕ × ℕ)
  pub loss_percentage : Option (ℕ × ℕ)
  pub percentage_ready : Bool
  pub percentage_required_samples : ℕ
  pub settle_ms : ℕ
  pub settled_window_ms : ℕ
  pub send_rate_hz : Option (ℕ × ℕ)
  pub versions : ℕ × ℕ
  pub last_updated_ms : ℕ

module _ (now_ns window_ms : ℕ) where
  abbrev pub is_settled : ℕ → EventKey × AuditEvent → Bool
  is_settled settle_ms (k, e) = leb (e.sent_at_ns + ns settle_ms) now_ns

  module _ (a : AuditState) where
    abbrev pub is_received : String → EventKey × AuditEvent → Bool
    is_received recipient (k, e) = contains (k, recipient) a.received

    -- `key not in settled_keys`, and not received
    abbrev pub is_pending : Sent → String → EventKey × AuditEvent → Bool
    is_pending settled recipient item =
        not (contains item.0 settled) && not (is_received recipient item)

    unfoldable pub row_of : Flow → Sent → Row
    row_of ((topic, source), recipient) unsorted =
        let events = sorted sent_before unsorted in
        let settle_ms = settle_ms_of topic in
        let settled_events = keep (is_settled settle_ms) events in
        let settled_received = length (keep (is_received recipient) settled_events) in
        let lost = length settled_events - settled_received in
        let settled_window_ms = max 1 (window_ms - settle_ms) in
        let required_samples = required_samples_for_full_set (send_rate events) settled_window_ms in
        let ready = leb required_samples (length settled_events) in
        record {
          topic = topic;
          source = source;
          recipient = recipient;
          settled = length settled_events;
          sent = length events;
          received = length (keep (is_received recipient) events);
          settled_received = settled_received;
          lost = lost;
          pending = length (keep (is_pending settled_events recipient) events);
          delivery_percentage =
              if ready then some (100 * settled_received, length settled_events) else none;
          loss_percentage = if ready then some (100 * lost, length settled_events) else none;
          percentage_ready = ready;
          percentage_required_samples = required_samples;
          settle_ms = settle_ms;
          settled_window_ms = settled_window_ms;
          send_rate_hz = send_rate events;
          versions = get_default ((topic, source), recipient) (0, 0) a.versions;
          last_updated_ms = last_sent events / 1000000;
        }

    unfoldable pub rows_of : Dict Flow Sent → List Row
    rows_of [] = []
    rows_of ((flow, events) ∷ flows) = row_of flow events ∷ rows_of flows

-- `flows.setdefault(..., []).append((key, sent))`, for each recipient
unfoldable pub add_to_flows : EventKey → AuditEvent → List String → Dict Flow Sent → Dict Flow Sent
add_to_flows key e [] flows = flows
add_to_flows key e (r ∷ rs) flows =
    let flow : Flow = (group_of key, r) in
    add_to_flows key e rs (insert flow (get_default flow [] flows ++ ((key, e) ∷ [])) flows)

abbrev pub row_lt : Row → Row → Bool
row_lt x y = is_lt (
    and_then (compare_string x.topic y.topic)
      (and_then (compare_string x.source y.source) (compare_string x.recipient y.recipient)))

module _ (run_nodes : String → List String) (mesh : Mesh) where
  unfoldable pub flows_from : ℕ → ℕ → Sent → Dict Flow Sent → Dict Flow Sent
  flows_from now_ns window_ms [] flows = flows
  flows_from now_ns window_ms ((key, e) ∷ sent) flows = flows_from now_ns window_ms sent (
      if ltb (e.sent_at_ns + ns window_ms) now_ns
      then flows
      else add_to_flows key e (expected_recipients run_nodes mesh e) flows)

  unfoldable pub modes_from : Dict Flow Sent → Dict String String → Dict String String
  modes_from [] modes = modes
  modes_from (((group, recipient), events) ∷ flows) modes = modes_from flows (
      if is_platform group.1
      then insert group.1 (reported_status_mode mesh group.1) modes
      else modes)

  unfoldable pub application_delivery_snapshot : ℕ → ℕ → AuditState → Dict String String × List Row
  application_delivery_snapshot now_ns window_ms a =
      let flows = flows_from now_ns window_ms a.sent [] in
      (modes_from flows [], sorted row_lt (rows_of now_ns window_ms a flows))
