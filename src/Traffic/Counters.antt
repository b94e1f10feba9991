-- ===== src/Traffic/Counters.antt =====
-- The counters of one domain in one capture window: `COUNTER_PREFIXES` and `empty_counters` of
-- debug/scripts/traffic_accounting.py, and what `TrafficAccumulator.add_packet` of
-- domain_traffic_monitor.py adds to them.
use act_sim_scope_infra.Common.{ℕ, ◌+◌, ◌≤◌, ◌≡◌, Bool, true, false, if◌then◌else◌, arith}

-- `FRAME_CLASSES`; `data` is a reserved word here
pub data FrameClass : Type 0 where
  discovery user_data reliability mixed unknown : FrameClass

-- `TX_CLASSES`
pub data TxClass : Type 0 where
  application infrastructure discovery reliability mixed unknown : TxClass

-- `COUNTER_PREFIXES`
pub data Prefix : Type 0 where
  frame : FrameClass → Prefix
  sent : TxClass → Prefix
  data_tx tx rx total incomplete_fragment : Prefix

pub record Count : Type 0 where
  pub packets : ℕ
  pub bytes : ℕ

-- The dict of `empty_counters` has every field from the start, so it is a function here.
abbrev pub Counters : Type 0
Counters = Prefix → Count

abbrev pub zero_count : Count
zero_count = record { packets = 0; bytes = 0 }

unfoldable pub empty_counters : Counters
empty_counters p = zero_count

abbrev pub frame_class_eq : FrameClass → FrameClass → Bool
frame_class_eq FrameClass.discovery FrameClass.discovery = true
frame_class_eq FrameClass.user_data FrameClass.user_data = true
frame_class_eq FrameClass.reliability FrameClass.reliability = true
frame_class_eq FrameClass.mixed FrameClass.mixed = true
frame_class_eq FrameClass.unknown FrameClass.unknown = true
frame_class_eq a b = false

abbrev pub tx_class_eq : TxClass → TxClass → Bool
tx_class_eq TxClass.application TxClass.application = true
tx_class_eq TxClass.infrastructure TxClass.infrastructure = true
tx_class_eq TxClass.discovery TxClass.discovery = true
tx_class_eq TxClass.reliability TxClass.reliability = true
tx_class_eq TxClass.mixed TxClass.mixed = true
tx_class_eq TxClass.unknown TxClass.unknown = true
tx_class_eq a b = false

abbrev pub prefix_eq : Prefix → Prefix → Bool
prefix_eq (frame a) (frame b) = frame_class_eq a b
prefix_eq (sent a) (sent b) = tx_class_eq a b
prefix_eq data_tx data_tx = true
prefix_eq tx tx = true
prefix_eq rx rx = true
prefix_eq total total = true
prefix_eq incomplete_fragment incomplete_fragment = true
prefix_eq a b = false

-- One frame, or several that are counted together.
pub record Packet : Type 0 where
  pub domain_id : ℕ
  pub frame_len : ℕ
  pub traffic_class : FrameClass
  pub is_local_transmit : Bool
  pub tx_class : TxClass
  pub packet_count : ℕ
  pub incomplete : Bool
  pub timestamp_ms : ℕ

-- `s[f"{prefix}_packets"] += packet_count; s[f"{prefix}_bytes"] += frame_len`
unfoldable pub bump : Packet → Prefix → Counters → Counters
bump p at s q =
    if prefix_eq at q
    then record { packets = (s q).packets + p.packet_count; bytes = (s q).bytes + p.frame_len }
    else s q

-- `tx_class in {"application", "infrastructure"}`
abbrev pub is_data_tx : TxClass → Bool
is_data_tx TxClass.application = true
is_data_tx TxClass.infrastructure = true
is_data_tx other = false

-- The increments of `add_packet`, behind its guard.
unfoldable pub count_packet : Packet → Counters → Counters
unfolding bump
count_packet p s =
    let counted = bump p (frame p.traffic_class) (bump p total s) in
    let local = bump p (sent p.tx_class) (bump p tx counted) in
    let directed =
      if p.is_local_transmit
      then (if is_data_tx p.tx_class then bump p data_tx local else local)
      else bump p rx counted in
    if p.incomplete then bump p incomplete_fragment directed else directed

-- `target[field] += value`, for every field
unfoldable pub add_counters : Counters → Counters → Counters
add_counters a b q = record {
  packets = (a q).packets + (b q).packets;
  bytes = (a q).bytes + (b q).bytes;
}

-- The sums that the counters of every report satisfy, for one unit.
abbrev pub Balanced : (Prefix → ℕ) → Type 0
Balanced n =
    (n total
      ≡ n (frame FrameClass.discovery)
        + n (frame FrameClass.user_data)
        + n (frame FrameClass.reliability)
        + n (frame FrameClass.mixed)
        + n (frame FrameClass.unknown))
    × (n total ≡ n tx + n rx)
    × (n tx
        ≡ n (sent TxClass.application)
          + n (sent TxClass.infrastructure)
          + n (sent TxClass.discovery)
          + n (sent TxClass.reliability)
          + n (sent TxClass.mixed)
          + n (sent TxClass.unknown))
    × (n data_tx ≡ n (sent TxClass.application) + n (sent TxClass.infrastructure))
    × (n incomplete_fragment ≤ n total)

pub record IsBalanced (s : Counters) : Type 0 where
  pub in_packets : Balanced (λ q. (s q).packets)
  pub in_bytes : Balanced (λ q. (s q).bytes)

pub empty-IsBalanced : IsBalanced empty_counters
unfolding empty_counters
empty-IsBalanced = record { in_packets = omega arith; in_bytes = omega arith }

pub count_packet-IsBalanced :
    (p : Packet) (s : Counters) → IsBalanced s → IsBalanced (count_packet p s)
unfolding count_packet
count_packet-IsBalanced p s h = record {
  in_packets = ground (arith, h.in_packets);
  in_bytes = ground (arith, h.in_bytes);
}

pub add_counters-IsBalanced :
    (a b : Counters) → IsBalanced a → IsBalanced b → IsBalanced (add_counters a b)
unfolding add_counters
add_counters-IsBalanced a b h k = record { in_packets = omega arith; in_bytes = omega arith }
