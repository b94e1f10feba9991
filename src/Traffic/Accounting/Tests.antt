-- ===== src/Traffic/Accounting/Tests.antt =====
-- `FrameAccounting` on small runs, and the theorems at them.
use act_sim_scope_infra.Common.{
  ℕ, ◌≡◌, refl, some, none, List, [], ◌∷◌, false, true, string_key, pair_key, Option, ◌*◌, ◌≤◌,
  Bool, length, nat_key, list_key, arith, any, ◌↔◌,
}
use act_sim_scope_infra.Wire.Bytes.{Bytes}
use act_sim_scope_infra.Traffic.Counters.{TxClass, FrameClass}
use act_sim_scope_infra.Traffic.Accumulator.{fresh, add_packet, hold_fragment, release_fragment}
use act_sim_scope_infra.Traffic.Classify.{is_writer, classify_packet, carries_data, carries_control}
use act_sim_scope_infra.Traffic.Accounting.{
  start, process_all, Accounting, Row, Outcome, row, process, second,
}
use act_sim_scope_infra.Traffic.Accounting.Learned.{learn, tx_class}
use act_sim_scope_infra.Traffic.Accounting.Learned.Roles.{tx_class_bounded, classify-tx_class}
use act_sim_scope_infra.Traffic.Accounting.Learned.{Topics, max_topics}
use act_sim_scope_infra.Traffic.Accounting.Fragments.{IsValid}
use act_sim_scope_infra.Traffic.Accounting.Held.{process_all-IsValid}
use act_sim_scope_infra.Traffic.Accounting.Frames.{seen}

abbrev start_state : Accounting
unfolding fresh
start_state = record {
  domains = 200 ∷ [];
  local_ips = "10.0.0.1" ∷ [];
  accumulator = fresh 1000 (some 0) 2000;
  fragments = [];
  topics = [];
  orphan_packets = 0;
  orphan_bytes = 0;
  dirty = false;
}

abbrev prefix : Bytes
prefix = 1 ∷ 1 ∷ 0 ∷ 0 ∷ 0 ∷ 0 ∷ 0 ∷ 0 ∷ 0 ∷ 0 ∷ 0 ∷ 7 ∷ []

-- The first fragment of a datagram, and the frame in which it is put together again.
abbrev fragment_at : ℕ → ℕ → Option Bytes → Row
fragment_at t offset guid_prefix = record {
  time = t * second;
  size = 1500;
  source = some "10.0.0.1";
  destination = "10.0.0.2";
  ip_id = "0x1";
  protocols = 17 ∷ [];
  frag_offset = offset;
  more_fragments = true;
  port = some 57400;
  guid_prefix = guid_prefix;
  writer_ids = 0x8002 ∷ [];
  submessage_ids = 0x15 ∷ [];
  endpoint_guids = [];
  topic_names = [];
  data_port = none;
}

abbrev held_state : Accounting
unfolding process
held_state = (process 10 (fragment_at 3 0 none) start_state).1

-- Both rows, from the start.
process_all-IsValid_example : IsValid (
    process_all
      ((10, fragment_at 3 0 none) ∷ (11, fragment_at 3 185 (some prefix)) ∷ [])
      (start (200 ∷ []) ("10.0.0.1" ∷ []) (fresh 1000 (some 0) 2000) []))
unfolding fresh
process_all-IsValid_example =
    process_all-IsValid (200 ∷ []) ("10.0.0.1" ∷ []) (fresh 1000 (some 0) 2000) []
      ((10, fragment_at 3 0 none) ∷ (11, fragment_at 3 185 (some prefix)) ∷ []) refl refl refl

abbrev done : Outcome × Accounting
unfolding process
done = process 11 (fragment_at 3 185 (some prefix)) held_state

-- Both frames of the datagram are counted when its second one arrives.
done_row : done.0 ≡ row (some 200)
unfolding process start_state held_state done
done_row = refl

done_seen : seen done.1 ≡ 2
unfolding process start_state held_state done add_packet hold_fragment release_fragment is_writer
done_seen = refl

-- The topic "Track" is announced by the writer 0x00008002 of the prefix.
abbrev announced : List (Option Bytes)
announced = some (1 ∷ 1 ∷ 0 ∷ 0 ∷ 0 ∷ 0 ∷ 0 ∷ 0 ∷ 0 ∷ 0 ∷ 0 ∷ 7 ∷ 0 ∷ 0 ∷ 0x80 ∷ 2 ∷ []) ∷ []

abbrev topics : Topics × Bool
topics = learn 200 (3 * second) announced ("Track" ∷ []) ([], false)

topics_use : tx_class 200 9 prefix (0x8002 ∷ []) (0x15 ∷ []) topics ≡ (
  TxClass.application,
  (
    (200, 1 ∷ 1 ∷ 0 ∷ 0 ∷ 0 ∷ 0 ∷ 0 ∷ 0 ∷ 0 ∷ 0 ∷ 0 ∷ 7 ∷ 0 ∷ 0 ∷ 0x80 ∷ 2 ∷ []),
    record { topic = "Track"; seen_at = 9 },
  )
      ∷ [],
  true,
)
unfolding learn tx_class is_writer
topics_use = refl

tx_class_bounded_example :
    length (tx_class 200 9 prefix (0x8002 ∷ []) (0x15 ∷ []) topics).1 ≤ max_topics
tx_class_bounded_example =
    tx_class_bounded 200 (3 * second) 9 prefix (0x8002 ∷ []) (0x15 ∷ []) announced ("Track" ∷ [])
      ([], false) (omega arith)

classify-tx_class_example :
    (classify_packet (0x000100c2 ∷ []) (0x15 ∷ []) ≡ FrameClass.discovery) ↔ (
      (carries_data (0x15 ∷ []) ≡ true)
      × (carries_control (0x15 ∷ []) ≡ false)
      × (any is_writer (0x000100c2 ∷ []) ≡ false)
      × (tx_class 200 9 prefix (0x000100c2 ∷ []) (0x15 ∷ []) topics
          ≡ (TxClass.discovery, topics.0, topics.1)))
classify-tx_class_example = classify-tx_class 200 9 prefix (0x000100c2 ∷ []) (0x15 ∷ []) topics
