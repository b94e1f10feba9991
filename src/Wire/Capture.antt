-- ===== src/Wire/Capture.antt =====
-- `class WireCapture` of debug/scripts/rtps_delivery.py: how `process` takes a row.
pub mod State
pub mod Repair
pub mod Parts
pub mod Resent
pub mod Once
pub mod Delivered
mod Tests
use act_sim_scope_infra.Common.{
  ℕ, ◌+◌, ◌-◌, ◌*◌, String, List, [], ◌∷◌, ◌++◌, Bool, true, false, not, ◌&&◌, ◌||◌, Option, none,
  some, ltb, leb, ◌==◌, if◌then◌else◌, any, keep, length, Key, Dict, lookup, insert, erase,
  get_default, nat_key, pair_key, list_key, ◌↔◌, ◌≡◌, arith, is_some, str_eq,
}
use act_sim_scope_infra.Wire.Bytes.{
  Bytes, Error, Result, ok, err, last_byte, missing_payload, multicast_delivery,
}
use act_sim_scope_infra.Wire.SequenceRanges
use act_sim_scope_infra.Wire.SequenceRanges.{Ranges}
use act_sim_scope_infra.Wire.Submessages.{Yielded, End, submessages}
use act_sim_scope_infra.Wire.Submessages.Kinds.{Item, Sample, Fragment, repair_request, sample}
use act_sim_scope_infra.Wire.Endpoints.{Metadata, Reliability, endpoint_metadata}
use Repair.{
  Ip, second, Request, RequestKey, Requests, note_request, recent_requests, first_reader,
  same_bytes,
}
use Parts.{Group, any_part, Assembly, waiting, failed, complete, assemble}
use State.{
  Direction, is_sent, direction_same, direction_same_iff, direction_key, StreamKey, SampleKey,
  PathKey, Retransmission, Delivery, Event, Capture, Row, Frame, emit, fresh, init, is_user,
  is_discovery, stream_of, ranges_at, sent, received, retransmitted, endpoint, delivered,
}
use Resent.{take_request, note_path, overlaps, repeated, retransmit_to, retransmit}

-- `expire`
pub expire : ℕ → Capture → Capture
unfolding recent_requests
expire now c =
    let fresh = keep (λ entry. leb (now - entry.1.at) (60 * second)) c.fragments in
    record c {
      requests = recent_requests now c.requests;
      fragments = fresh;
      incomplete_fragments = c.incomplete_fragments + (length c.fragments - length fresh);
    }

abbrev pub reliability_same : Reliability → Reliability → Bool
reliability_same Reliability.best_effort Reliability.best_effort = true
reliability_same Reliability.reliable Reliability.reliable = true
reliability_same Reliability.unknown Reliability.unknown = true
reliability_same a b = false

abbrev pub is_known : Metadata → Option Metadata → Bool
is_known m none = false
is_known m (some n) =
    same_bytes m.writer_guid n.writer_guid
    && (same_bytes m.topic n.topic && reliability_same m.reliability n.reliability)

-- `if discovery:` behind `seen.add`
pub note_endpoint : ℕ → ℕ → Result (Option Metadata) → Capture → Capture × Option Error
note_endpoint domain at (err e) c = (c, some e)
note_endpoint domain at (ok none) c = (c, none)
note_endpoint domain at (ok (some m)) c =
    if is_known m (lookup (domain, m.writer_guid) c.endpoints) then (c, none) else (
      emit (endpoint domain m at)
          (record c { endpoints = insert (domain, m.writer_guid) m c.endpoints }),
      none,
    )

-- `ipaddress.ip_address(destination).is_multicast`: 224.0.0.0/4
abbrev pub is_multicast : Ip → Bool
is_multicast [] = false
is_multicast (b ∷ rest) = leb 224 b && leb b 239

abbrev pub topic_of : Option Metadata → Option Bytes
topic_of none = none
topic_of (some m) = some m.topic

abbrev pub reliability_of : Option Metadata → Reliability
reliability_of none = Reliability.unknown
reliability_of (some m) = m.reliability

-- From `if source not in self.nodes or destination not in self.nodes` on.
pub deliver : Option String → Option String → Frame → Sample → ℕ → Capture → Capture × Option Error
deliver (some source) (some recipient) f s at c =
    let metadata = lookup (f.domain, s.writer_guid) c.endpoints in
    if is_multicast f.row.destination then (c, some multicast_delivery) else (
      emit
          (delivered (record {
            event = f.event;
            domain = f.domain;
            writer_guid = s.writer_guid;
            sequence = s.sequence;
            timestamp = at;
            completed_at = f.row.time;
            source = source;
            recipient = recipient;
            source_ip = f.row.source;
            destination_ip = f.row.destination;
            destination_prefix = s.destination_prefix;
            topic = topic_of metadata;
            reliability = reliability_of metadata;
          }))
          c,
      none,
    )
deliver source recipient f s at c =
    (record c { unknown_destinations = c.unknown_destinations + 1 }, none)

-- From `seen.add(item["sequence"])` on; `at` is the time of the sample's first fragment.
pub complete_sample : Frame → Sample → Bytes → ℕ → Capture → Capture × Option Error
unfolding note_endpoint deliver
complete_sample f s payload at c0 =
    let key = stream_of f s in
    let c : Capture = record c0 {
      seen = insert key (SequenceRanges.add (ranges_at key c0) s.sequence).0 c0.seen;
    } in
    if is_discovery s.writer_guid
    then note_endpoint f.domain at (endpoint_metadata payload) c
    else if not (is_user s.writer_guid)
    then (c, none)
    else deliver (lookup f.row.source c.nodes) (lookup f.row.destination c.nodes) f s at c

-- What becomes of a fragment's group.
pub assembled : Assembly → Frame → Sample → Capture → Capture × Option Error
unfolding complete_sample
assembled (waiting g) f s c =
    (record c { fragments = insert (stream_of f s, s.sequence) g c.fragments }, none)
assembled (failed e g) f s c =
    (record c { fragments = insert (stream_of f s, s.sequence) g c.fragments }, some e)
assembled (complete payload at) f s c =
    complete_sample f s payload at
      (record c { fragments = erase (stream_of f s, s.sequence) c.fragments })

-- `if "first" in item`, and what follows it.
pub take_new : Option Fragment → Frame → Sample → Capture → Capture × Option Error
unfolding assembled complete_sample assemble
take_new none f s c = complete_sample f s s.payload f.row.time c
take_new (some fragment) f s c =
    assembled
      (assemble f.row.time fragment s.payload (lookup (stream_of f s, s.sequence) c.fragments)) f s
      c

-- A DATA or DATA_FRAG item.
pub take_sample : Frame → Sample → Capture → Capture × Option Error
unfolding note_path repeated retransmit take_new
take_sample f s c0 =
    let key = stream_of f s in
    let c1 : Capture = record c0 { seen = insert key (ranges_at key c0) c0.seen } in
    let (repeated_path, c2) = note_path f.row.port f s c1 in
    let c3 = if repeated f s c1 && repeated_path then retransmit f s c2 else c2 in
    if SequenceRanges.contains (ranges_at key c3) s.sequence
    then (c3, none)
    else take_new s.fragment f s c3

pub take_item : Frame → Item → Capture → Capture × Option Error
unfolding take_request take_sample
take_item f (repair_request writer reader sequence) c =
    (take_request f writer reader sequence c, none)
take_item f (sample s) c = take_sample f s c

-- An exception ends the loop.
pub take_then : Capture × Option Error → (Capture → Capture × Option Error) → Capture × Option Error
take_then (c, some e) rest = (c, some e)
take_then (c, none) rest = rest c

abbrev pub error_of : End → Option Error
error_of (End.raised e) = some e
error_of other = none

-- The loop of `process`; `end` is how the generator of the items ends behind them.
pub take_items : Frame → List Item → End → Capture → Capture × Option Error
unfolding take_item take_then
take_items f [] end c = (c, error_of end)
take_items f (item ∷ items) end c = take_then (take_item f item c) (take_items f items end)

abbrev pub is_local : Ip → Capture → Bool
is_local ip c = any (same_bytes ip) c.local_ips

-- The frame's payload, if it has one.
pub take_payload : Option Bytes → Frame → Capture → Capture × Option Error
unfolding take_items
take_payload none f c = (c, some missing_payload)
take_payload (some payload) f c = let y = submessages payload in take_items f y.items y.end c

pub process : Row → ℕ → Capture → Capture × Option Error
unfolding expire take_payload
process row domain c =
    if is_local row.source c
    then take_payload row.payload (record { row = row; domain = domain; event = sent })
        (expire row.time c)
    else if is_local row.destination c
    then take_payload row.payload (record { row = row; domain = domain; event = received })
        (expire row.time c)
    else (c, none)

-- Frames one after the other; the caller catches a `ValueError` and goes on.
abbrev pub run : List (Row × ℕ) → Capture → Capture
run [] c = c
run ((row, domain) ∷ rows) c = run rows (process row domain c).0
