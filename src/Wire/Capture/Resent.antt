-- ===== src/Wire/Capture/Resent.antt =====
-- `WireCapture` of debug/scripts/rtps_delivery.py: the requests for repair that are taken, and the events
-- of samples that are sent again.
use act_sim_scope_infra.Common.{
  ℕ, String, [], Bool, true, false, not, ◌&&◌, ◌||◌, Option, none, some, if◌then◌else◌, lookup,
  insert, get_default, nat_key, pair_key, list_key, is_some,
}
use act_sim_scope_infra.Wire.Bytes.{Bytes}
use act_sim_scope_infra.Wire.SequenceRanges
use act_sim_scope_infra.Wire.SequenceRanges.{Ranges}
use act_sim_scope_infra.Wire.Submessages.Kinds.{Sample, Fragment}
use act_sim_scope_infra.Wire.Capture.Repair.{Request, RequestKey, note_request, first_reader}
use act_sim_scope_infra.Wire.Capture.Parts.{Group, any_part}
use act_sim_scope_infra.Wire.Capture.State.{
  is_sent, direction_key, PathKey, Capture, Frame, emit, is_user, stream_of, ranges_at,
  retransmitted,
}

-- `if item.get("kind") == "repair_request"`
unfoldable pub take_request : Frame → Bytes → Bytes → ℕ → Capture → Capture
unfolding note_request
take_request f writer reader sequence c =
    let r = f.row in
    if not (is_sent f.event)
      && (is_some (lookup r.source c.nodes)
          && (is_some (lookup r.destination c.nodes) && is_user writer))
    then record c {
      requests =
          note_request r.time (f.domain, (writer, (sequence, (r.destination, r.source)))) reader
            c.requests;
    }
    else c

-- `repeated_path`, and the path's numbers
unfoldable pub note_path : Option ℕ → Frame → Sample → Capture → Bool × Capture
note_path none f s c = (false, c)
note_path (some port) f s c =
    let key : PathKey = (f.domain, (s.writer_guid, (f.row.destination, port))) in
    let path = get_default key [] c.sent_paths in
    if is_sent f.event && is_user s.writer_guid
    then (
      SequenceRanges.contains path s.sequence,
      record c { sent_paths = insert key (SequenceRanges.add path s.sequence).0 c.sent_paths },
    )
    else (false, c)

-- Whether some of a fragment's numbers are in the group.
abbrev pub overlaps : Option Fragment → Option Group → Bool
overlaps (some f) (some g) = any_part f.first f.count g.parts
overlaps f g = false

-- `repeated`
unfoldable pub repeated : Frame → Sample → Capture → Bool
unfolding any_part
repeated f s c =
    SequenceRanges.contains (ranges_at (stream_of f s) c) s.sequence
    || overlaps s.fragment (lookup (stream_of f s, s.sequence) c.fragments)

-- The event of a retransmission, when the request has a reader that the sample is for.
unfoldable pub retransmit_to :
    Option (Bytes × ℕ)
    → Option ℕ
    → Option String
    → Option String
    → RequestKey
    → Request
    → Frame
    → Sample
    → Capture
    → Capture
retransmit_to (some reader) (some port) (some source) (some recipient) key q f s c =
    emit
      (retransmitted (record {
        domain = f.domain;
        writer_guid = s.writer_guid;
        sequence = s.sequence;
        timestamp = f.row.time;
        source = source;
        recipient = recipient;
        source_ip = f.row.source;
        destination_ip = f.row.destination;
        requested_at = reader.1;
        reader_guid = reader.0;
        destination_port = port;
      }))
      (record c { requests = insert key (record q { emitted = true }) c.requests })
retransmit_to reader port source recipient key q f s c = c

-- `if event == "sent" and request and not request["emitted"] and repeated and repeated_path and ...`
unfoldable pub retransmit : Frame → Sample → Capture → Capture
unfolding retransmit_to first_reader
retransmit f s c =
    let r = f.row in
    let key : RequestKey = (f.domain, (s.writer_guid, (s.sequence, (r.source, r.destination)))) in
    elim (lookup key c.requests) [
      | none ↦ c
      | some q ↦
          if is_sent f.event && not q.emitted
          then retransmit_to (first_reader s q.readers) r.port (lookup r.source c.nodes)
              (lookup r.destination c.nodes) key q f s c
          else c
    ]
