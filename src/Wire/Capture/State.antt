-- ===== src/Wire/Capture/State.antt =====
-- The state of `WireCapture` of debug/scripts/rtps_delivery.py, the rows that it reads and the events that
-- it writes. An address is kept as its octets, a time as a number of nanoseconds, and the events in the
-- order in which they are written, without the observer and the run that stand in all of them.
use act_sim_scope_infra.Common.{
  ℕ, String, List, [], ◌∷◌, ◌++◌, Bool, true, false, not, ◌||◌, Option, none, some, ◌==◌,
  if◌then◌else◌, any, Key, Dict, get_default, nat_key, pair_key, list_key, ◌↔◌, ◌≡◌, arith, str_eq,
}
use act_sim_scope_infra.Wire.Bytes.{Bytes, last_byte}
use act_sim_scope_infra.Wire.SequenceRanges.{Ranges}
use act_sim_scope_infra.Wire.Submessages.Kinds.{Sample}
use act_sim_scope_infra.Wire.Endpoints.{Metadata, Reliability}
use act_sim_scope_infra.Wire.Capture.Repair.{Ip, Requests}
use act_sim_scope_infra.Wire.Capture.Parts.{Group}

pub data Direction : Type 0 where
  sent received : Direction

abbrev pub is_sent : Direction → Bool
is_sent sent = true
is_sent received = false

abbrev pub direction_same : Direction → Direction → Bool
direction_same d e = if is_sent d then is_sent e else not (is_sent e)

pub direction_same_iff : (d e : Direction) → (direction_same d e ≡ true) ↔ (d ≡ e)
direction_same_iff sent sent = ground arith
direction_same_iff sent received = ground arith
direction_same_iff received sent = ground arith
direction_same_iff received received = ground arith

instance abbrev pub direction_key : Key Direction
direction_key = record { same = direction_same; same_iff = direction_same_iff }

-- The domain, the writer, the destination, and the direction.
abbrev pub StreamKey : Type 0
StreamKey = ℕ × (Bytes × (Ip × Direction))

-- A sample of a stream.
abbrev pub SampleKey : Type 0
SampleKey = StreamKey × ℕ

-- The domain, the writer, the destination, and the destination's port.
abbrev pub PathKey : Type 0
PathKey = ℕ × (Bytes × (Ip × ℕ))

pub record Retransmission : Type 0 where
  pub domain : ℕ
  pub writer_guid : Bytes
  pub sequence : ℕ
  pub timestamp : ℕ
  pub source : String
  pub recipient : String
  pub source_ip : Ip
  pub destination_ip : Ip
  pub requested_at : ℕ
  pub reader_guid : Bytes
  pub destination_port : ℕ

pub record Delivery : Type 0 where
  pub event : Direction
  pub domain : ℕ
  pub writer_guid : Bytes
  pub sequence : ℕ
  pub timestamp : ℕ
  pub completed_at : ℕ
  pub source : String
  pub recipient : String
  pub source_ip : Ip
  pub destination_ip : Ip
  pub destination_prefix : Option Bytes
  pub topic : Option Bytes
  pub reliability : Reliability

pub data Event : Type 0 where
  retransmitted : Retransmission → Event
  endpoint : ℕ → Metadata → ℕ → Event
  delivered : Delivery → Event

pub record Capture : Type 0 where
  pub nodes : Dict Ip String
  pub local_ips : List Ip
  pub seen : Dict StreamKey Ranges
  pub fragments : Dict SampleKey Group
  pub endpoints : Dict (ℕ × Bytes) Metadata
  pub requests : Requests
  pub sent_paths : Dict PathKey Ranges
  pub incomplete_fragments : ℕ
  pub unknown_destinations : ℕ
  pub output : List Event

-- What `process` reads of a row; `payload` is the UDP payload, and `port` is `none` when it is no number.
pub record Row : Type 0 where
  pub source : Ip
  pub destination : Ip
  pub time : ℕ
  pub payload : Option Bytes
  pub port : Option ℕ

pub record Frame : Type 0 where
  pub row : Row
  pub domain : ℕ
  pub event : Direction

abbrev pub emit : Event → Capture → Capture
emit e c = record c { output = c.output ++ e ∷ [] }

abbrev pub fresh : Dict Ip String → List Ip → Capture
fresh nodes local_ips = record {
  nodes = nodes;
  local_ips = local_ips;
  seen = [];
  fragments = [];
  endpoints = [];
  requests = [];
  sent_paths = [];
  incomplete_fragments = 0;
  unknown_destinations = 0;
  output = [];
}

-- `__init__`: a run ID, and an observer that is one of the nodes, are required.
unfoldable pub init : String → String → Dict Ip String → List Ip → Option Capture
init observer run_id nodes local_ips =
    if str_eq run_id "" || not (any (λ entry. str_eq entry.1 observer) nodes)
    then none
    else some (fresh nodes local_ips)

-- `int(writer[-2:], 16) in (2, 3)`, and in `(0xc2, 0xc3)`
abbrev pub is_user : Bytes → Bool
is_user writer = last_byte writer == 2 || last_byte writer == 3

abbrev pub is_discovery : Bytes → Bool
is_discovery writer = last_byte writer == 0xc2 || last_byte writer == 0xc3

abbrev pub stream_of : Frame → Sample → StreamKey
stream_of f s = (f.domain, (s.writer_guid, (f.row.destination, f.event)))

abbrev pub ranges_at : StreamKey → Capture → Ranges
ranges_at key c = get_default key [] c.seen
