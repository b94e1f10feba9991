-- ===== src/Dashboard/WireDelivery/Rows/Balance.antt =====
-- The counts in the rows of `snapshot`.
use act_sim_scope_infra.Common.{
  ℕ, ◌+◌, ◌-◌, ◌*◌, ◌≤◌, ◌≡◌, refl, ◌∙◌, List, [], ◌∷◌, ◌++◌, Bool, not, ◌&&◌, Option, none, some,
  ltb, Dict, lookup, insert, get_default, sum_values, sum_values-insert, measure, string_key,
  nat_key, pair_key, keep, length, length-append, All, arith, String,
}
use act_sim_scope_infra.Dashboard.WireDelivery.{Endpoint, Store, WireDelivery}
use act_sim_scope_infra.Dashboard.WireDelivery.Rows.{
  Row, Flow, Message, flow_of, in_window, group_flows, reliability_key, settle_of, millisecond,
  is_settled, is_received, tally, row_of, rows_of, snapshot,
}

tally_le : (p : Message → Bool) (ms : List Message) → tally p ms ≤ length ms
tally_le p [] = omega arith
tally_le p (m ∷ ms) = ground (arith, tally_le p ms)

-- A message is received, or pending, or its time is up: it is lost, or was received.
tally_split :
    (r s pending : Message → Bool) (ms : List Message)
    → ((m : Message) → pending m ≡ (not (r m) && not (s m)))
    → tally r ms + tally pending ms + length (keep s ms) ≡ length ms + tally r (keep s ms)
tally_split r s pending [] h = omega arith
tally_split r s pending (m ∷ ms) h = ground (arith, tally_split r s pending ms h, h m)

tally-keep : (r s : Message → Bool) (ms : List Message) → tally r (keep s ms) ≤ tally r ms
tally-keep r s [] = omega arith
tally-keep r s (m ∷ ms) = ground (arith, tally-keep r s ms)

-- What a row's counts say of each other.
pub record IsBalanced (r : Row) : Type 0 where
  pub all : r.received + r.pending + r.lost ≡ r.sent
  pub settled : r.settled_received + r.lost ≡ r.settled
  pub settled_received : r.settled_received ≤ r.received

row_of-IsBalanced :
    (now : ℕ) (w : WireDelivery) (flow : Flow) (ms : List Message)
    → IsBalanced (row_of now w flow ms)
unfolding row_of
row_of-IsBalanced now w flow ms =
    let r = is_received w.received in
    let settle_ms = settle_of flow.0 in
    let s = is_settled now settle_ms in
    let split =
      tally_split r s (λ m. not (r m) && ltb (now - m.1.timestamp) (settle_ms * millisecond)) ms
        (λ m. ground arith) in
    record {
      all = omega (arith, split, tally_le r (keep s ms));
      settled = omega (arith, tally_le r (keep s ms));
      settled_received = tally-keep r s ms;
    }

rows_of-IsBalanced :
    (now : ℕ) (w : WireDelivery) (flows : Dict Flow (List Message))
    → All IsBalanced (rows_of now w flows)
unfolding rows_of
rows_of-IsBalanced now w [] = tt
rows_of-IsBalanced now w ((flow, ms) ∷ flows) =
    (row_of-IsBalanced now w flow ms, rows_of-IsBalanced now w flows)

abbrev pub all_sent : List Row → ℕ
all_sent [] = 0
all_sent (r ∷ rows) = r.sent + all_sent rows

all_sent-rows_of :
    (now : ℕ) (w : WireDelivery) (flows : Dict Flow (List Message))
    → all_sent (rows_of now w flows) ≡ sum_values length flows
unfolding rows_of row_of
all_sent-rows_of now w [] = refl
all_sent-rows_of now w ((flow, ms) ∷ flows) = omega (arith, all_sent-rows_of now w flows)

default_length :
    (o : Option (List Message))
    → length (elim o as (λ x. List Message) [ none ↦ [] | some ms ↦ ms ]) ≡ measure length o
default_length none = refl
default_length (some ms) = refl

group_flows-length :
    (endpoints : Dict (ℕ × String) Endpoint) (now window_ms : ℕ) (sent : Store)
    (flows : Dict Flow (List Message))
    → sum_values length (group_flows endpoints now window_ms sent flows)
      ≡ sum_values length flows + tally (λ m. in_window now window_ms m.1) sent
unfolding group_flows
group_flows-length endpoints now window_ms [] flows = omega arith
group_flows-length endpoints now window_ms ((key, o) ∷ sent) flows =
    let flow = flow_of endpoints o in
    let old = get_default flow [] flows in
    let new = insert flow (old ++ (key, o) ∷ []) flows in
    ground (
      arith,
      group_flows-length endpoints now window_ms sent flows,
      group_flows-length endpoints now window_ms sent new,
      sum_values-insert length flow (old ++ (key, o) ∷ []) flows,
      length-append old ((key, o) ∷ []),
      default_length (lookup flow flows),
    )

-- In each row of `snapshot` the messages sent are those received, those pending and those lost, each
-- counted once; the settled ones are those received and those lost among them, and no more of them are
-- received than of all. The rows together have every message sent within the window, and no other.
pub snapshot-IsBalanced :
    (now window_ms : ℕ) (w : WireDelivery)
    → All IsBalanced (snapshot now window_ms w)
      × (all_sent (snapshot now window_ms w) ≡ tally (λ m. in_window now window_ms m.1) w.sent)
unfolding snapshot
snapshot-IsBalanced now window_ms w =
    let flows = group_flows w.endpoints now window_ms w.sent [] in
    (
      rows_of-IsBalanced now w flows,
      all_sent-rows_of now w flows
          ∙ group_flows-length w.endpoints now window_ms w.sent []
          ∙ omega arith,
    )
