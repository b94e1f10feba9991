-- ===== src/Traffic/Accounting.antt =====
-- `class FrameAccounting` of debug/scripts/traffic_accounting.py. A row of tshark is taken as the values
-- that its fields spell; a time is a number of nanoseconds, and `time.time()` an argument.
pub mod Learned
pub mod Fragments
pub mod Held
pub mod Frames
mod Tests
use act_sim_scope_infra.Common.{
  ℕ, zero, suc, ◌+◌, ◌-◌, ◌*◌, ◌/◌, ◌%◌, ◌≤◌, String, List, [], ◌∷◌, ◌++◌, Bool, true, false, not,
  ◌&&◌, ◌||◌, Option, none, some, ltb, leb, ◌==◌, if◌then◌else◌, str_eq, Dict, lookup, insert,
  erase, get_default, nat_key, string_key, pair_key, member, any, is_some,
}
use act_sim_scope_infra.Wire.Bytes.{Bytes}
use act_sim_scope_infra.Traffic.Counters.{FrameClass, TxClass, Packet}
use act_sim_scope_infra.Traffic.Classify.{classify_packet}
use act_sim_scope_infra.Traffic.Accumulator.{
  Accumulator, FragmentKey, add_packet, hold_fragment, release_fragment,
}
use Learned.{Topics, learn, tx_class}

-- An IPv4 datagram whose fragments are collected.
pub record Group : Type 0 where
  pub at : ℕ
  pub domain : Option ℕ
  pub bytes : ℕ
  pub packets : ℕ
  pub frames : List (ℕ × ℕ)

pub record Accounting : Type 0 where
  pub domains : List ℕ
  pub local_ips : List String
  pub accumulator : Accumulator
  pub fragments : Dict FragmentKey Group
  pub topics : Topics
  pub orphan_packets : ℕ
  pub orphan_bytes : ℕ
  pub dirty : Bool

-- `__init__`, with the topics of the topic cache that are less than a day old.
abbrev pub start : List ℕ → List String → Accumulator → Topics → Accounting
start domains local_ips accumulator topics = record {
  domains = domains;
  local_ips = local_ips;
  accumulator = accumulator;
  fragments = [];
  topics = topics;
  orphan_packets = 0;
  orphan_bytes = 0;
  dirty = false;
}

-- The fields of `FIELDS` that `process` reads, with the list-valued ones split. An empty `ip.src` or
-- prefix is `none`; an empty fragment offset is 0; `data_port` is the port in the data of a first fragment that holds "RTPS".
pub record Row : Type 0 where
  pub time : ℕ
  pub size : ℕ
  pub source : Option String
  pub destination : String
  pub ip_id : String
  pub protocols : List ℕ
  pub frag_offset : ℕ
  pub more_fragments : Bool
  pub port : Option ℕ
  pub guid_prefix : Option Bytes
  pub writer_ids : List ℕ
  pub submessage_ids : List ℕ
  pub endpoint_guids : List (Option Bytes)
  pub topic_names : List String
  pub data_port : Option ℕ

abbrev pub millisecond : ℕ
millisecond = 1000 * 1000

abbrev pub second : ℕ
second = 1000 * millisecond

-- `(port - 7400) // 250` from port 7400 on; a lower port is in no domain.
abbrev pub port_domain : Option ℕ → Option ℕ
port_domain none = none
port_domain (some port) = if leb 7400 port then some ((port - 7400) / 250) else none

abbrev member_ip : String → List String → Bool
member_ip ip = any (λ s. str_eq s ip)

-- `_emit`
pub emit : ℕ → String → ℕ × ℕ → FrameClass → TxClass → Bool → Accounting → Accounting
emit domain source (timestamp, size) frame_class tx incomplete a =
    let packet : Packet = record {
      domain_id = domain;
      frame_len = size;
      traffic_class = frame_class;
      is_local_transmit = member_ip source a.local_ips;
      tx_class = tx;
      packet_count = 1;
      incomplete = incomplete;
      timestamp_ms = timestamp / millisecond;
    } in
    record a { accumulator = add_packet packet a.accumulator }

-- `for ... in frames: self._emit(...)`
pub emit_all : ℕ → String → List (ℕ × ℕ) → FrameClass → TxClass → Bool → Accounting → Accounting
unfolding emit
emit_all domain source [] frame_class tx incomplete a = a
emit_all domain source (f ∷ fs) frame_class tx incomplete a =
    emit_all domain source fs frame_class tx incomplete
      (emit domain source f frame_class tx incomplete a)

-- `self.fragments.pop(key)`, and `self.accumulator.release_fragment(key)`
pub drop_group : FragmentKey → Accounting → Accounting
drop_group key a = record a {
  fragments = erase key a.fragments;
  accumulator = release_fragment key a.accumulator;
}

-- The orphan counters, copied to the accumulator.
pub orphan : Group → Accounting → Accounting
orphan g a =
    let packets = a.orphan_packets + g.packets in
    let bytes = a.orphan_bytes + g.bytes in
    let acc = a.accumulator in
    record a {
      orphan_packets = packets;
      orphan_bytes = bytes;
      accumulator = record acc { orphan_fragment_packets = packets; orphan_fragment_bytes = bytes };
    }

-- What `expire` does with a group that is too old, once it is taken out.
pub settle_in : Option ℕ → FragmentKey → Group → Accounting → Accounting
unfolding emit_all orphan
settle_in none key g a = orphan g a
settle_in (some d) key g a =
    if member d a.domains
    then emit_all d key.0 g.frames FrameClass.unknown TxClass.unknown true a
    else orphan g a

abbrev pub settle : FragmentKey → Group → Accounting → Accounting
settle key g a = settle_in g.domain key g a

-- The loop of `expire`, over the groups that there were at its start.
pub expire_groups : ℕ → Dict FragmentKey Group → Accounting → Accounting
unfolding settle_in drop_group
expire_groups now [] a = a
expire_groups now ((key, g) ∷ rest) a =
    expire_groups now rest
      (if ltb (now - g.at) (5 * second) then a else settle key g (drop_group key a))

-- `expire`; that it saves the topics every 5 seconds is not part of the accounting.
pub expire : ℕ → Accounting → Accounting
unfolding expire_groups
expire now a = expire_groups now a.fragments a

-- How `process` ends: with a `ValueError`, with `None`, or with the row. The row also goes to the wire
-- capture, with its domain, where the last part says so.
pub data Outcome : Type 0 where
  missing_protocol invalid_timestamp skipped : Outcome
  row : Option ℕ → Outcome

-- `self.fragments.setdefault(key, {...})`, and what is added to the group
pub collect : Row → FragmentKey → Accounting → Group × Accounting
collect r key a =
    let fresh : Group = record {
      at = r.time;
      domain = none;
      bytes = 0;
      packets = 0;
      frames = [];
    } in
    let old = get_default key fresh a.fragments in
    let found : Option ℕ =
      if r.frag_offset == 0
      then elim r.data_port [ none ↦ old.domain | some p ↦ port_domain (some p) ]
      else old.domain in
    let group : Group = record {
      at = old.at;
      domain = found;
      bytes = old.bytes + r.size;
      packets = old.packets + 1;
      frames = old.frames ++ (r.time, r.size) ∷ [];
    } in
    (
      group,
      record a {
        fragments = insert key group a.fragments;
        accumulator = hold_fragment key (r.time / millisecond) a.accumulator;
      },
    )

-- The part of `process` behind the last guard: `frames` are those of the group, or the one of the row.
pub account : ℕ → Row → String → ℕ → Bytes → List (ℕ × ℕ) → Accounting → Accounting
unfolding emit_all learn tx_class
account wall r source domain prefix frames a =
    let learned = learn domain r.time r.endpoint_guids r.topic_names (a.topics, a.dirty) in
    let (tx, topics, dirty) = tx_class domain wall prefix r.writer_ids r.submessage_ids learned in
    emit_all domain source frames (classify_packet r.writer_ids r.submessage_ids) tx false
      (record a { topics = topics; dirty = dirty })

-- `if group: self.fragments.pop(key); self.accumulator.release_fragment(key)`
pub release_if : Bool → FragmentKey → Accounting → Accounting
unfolding drop_group
release_if false key a = a
release_if true key a = drop_group key a

-- `if domain not in self.domains or not row["rtps.guidPrefix.src"]`, and what follows it.
pub finish_in :
    Option ℕ
    → Option Bytes
    → ℕ
    → Row
    → String
    → FragmentKey
    → Bool
    → List (ℕ × ℕ)
    → Accounting
    → Outcome × Accounting
unfolding account release_if
finish_in (some domain) (some prefix) wall r source key fragmented frames a =
    if member domain a.domains
    then (
      row (some domain),
      release_if fragmented key (account wall r source domain prefix frames a),
    )
    else (row none, release_if fragmented key a)
finish_in d p wall r source key fragmented frames a = (row none, release_if fragmented key a)

-- `process` behind the fragment handling, with the domain of the row's port.
abbrev pub finish :
    ℕ → Row → String → FragmentKey → Bool → List (ℕ × ℕ) → Accounting → Outcome × Accounting
finish wall r = finish_in (port_domain r.port) r.guid_prefix wall r

-- `row["ip.flags.mf"] == "1" or int(row["ip.frag_offset"] or 0) > 0`
abbrev pub is_fragment : Row → Bool
is_fragment r = r.more_fragments || ltb 0 r.frag_offset

-- `process` from the fragment handling on.
pub process_udp : ℕ → Row → String → Accounting → Outcome × Accounting
unfolding collect finish_in
process_udp wall r source a =
    let key : FragmentKey = (source, (r.destination, r.ip_id)) in
    let (group, held) = collect r key a in
    if is_fragment r
    then (if is_some r.guid_prefix
        then finish wall r source key true group.frames held
        else (row none, held))
    else finish wall r source key false ((r.time, r.size) ∷ []) a

-- `process` with the row's source and protocols.
pub process_from : Option String → List ℕ → ℕ → Row → Accounting → Outcome × Accounting
unfolding process_udp expire
process_from none ps wall r a = (skipped, a)
process_from (some source) [] wall r a = (missing_protocol, a)
process_from (some source) (p ∷ ps) wall r a =
    if not (p == 17)
    then (skipped, a)
    else if r.time == 0
    then (invalid_timestamp, a)
    else process_udp wall r source (expire r.time a)

-- `process`; `wall` is `time.time()`.
pub process : ℕ → Row → Accounting → Outcome × Accounting
unfolding process_from
process wall r a = process_from r.source r.protocols wall r a

-- Frames one after the other; the caller catches a `ValueError` and goes on.
abbrev pub process_all : List (ℕ × Row) → Accounting → Accounting
process_all [] a = a
process_all ((wall, r) ∷ rows) a = process_all rows (process wall r a).1
