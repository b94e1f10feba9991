-- ===== src/Wire/Capture/Delivered.antt =====
-- How often `WireCapture` writes a sample: its steps, one after the other.
use act_sim_scope_infra.Common.{
  ℕ, ◌≤◌, ◌≡◌, refl, ap, sym, ◌∙◌, String, List, [], ◌∷◌, ◌++◌, Bool, true, false, not, ◌&&◌, ◌||◌,
  Option, none, some, if◌then◌else◌, Dict, lookup, insert, get_default-insert_self, nat_key,
  pair_key, list_key, arith, inl, inr, Bool-cases, subst, str_eq, any,
}
use mathlib.Core.Option.{some-injective}
use act_sim_scope_infra.Wire.Bytes.{Bytes, Error, Result, ok, err}
use act_sim_scope_infra.Wire.SequenceRanges
use act_sim_scope_infra.Wire.SequenceRanges.{Ranges}
use act_sim_scope_infra.Wire.Submessages.{End, submessages}
use act_sim_scope_infra.Wire.Submessages.Kinds.{Item, Sample, Fragment, repair_request, sample}
use act_sim_scope_infra.Wire.Endpoints.{Metadata, endpoint_metadata}
use act_sim_scope_infra.Wire.Capture.Repair.{Ip}
use act_sim_scope_infra.Wire.Capture.Parts.{Assembly, waiting, failed, complete}
use act_sim_scope_infra.Wire.Capture.State.{
  Capture, Event, Frame, Row, Delivery, StreamKey, SampleKey, direction_key, retransmitted,
  endpoint, delivered, emit, stream_of, ranges_at, is_user, is_discovery, init, fresh,
}
use act_sim_scope_infra.Wire.Capture.Resent.{take_request, note_path, repeated, retransmit}
use act_sim_scope_infra.Wire.Capture.{
  expire, note_endpoint, deliver, complete_sample, assembled, take_new, take_sample, take_item,
  take_then, take_items, take_payload, process, run, is_known, is_multicast, is_local,
}
use act_sim_scope_infra.Wire.Capture.Once.{
  key_of, bit, says, times, times-append, Inv, Same, Same-Inv, Same-refl, Fresh, note_seen,
  note_path-Same, retransmit-Same, note_seen-Fresh,
}

bit_le : (b : Bool) → bit b ≤ 1
bit_le b = ground arith

note_endpoint-Same :
    (domain at : ℕ) (m : Result (Option Metadata)) (c : Capture)
    → Same c (note_endpoint domain at m c).0
unfolding note_endpoint
note_endpoint-Same domain at (err e) c = Same-refl c
note_endpoint-Same domain at (ok none) c = Same-refl c
note_endpoint-Same domain at (ok (some m)) c =
    elim (Bool-cases (is_known m (lookup (domain, m.writer_guid) c.endpoints))) [
      | inl e ↦ rw e (Same-refl c)
      | inr e ↦ rw e (record {
        ranges = λ st. refl;
        written = λ k. omega (arith, times-append k c.output (endpoint domain m at));
      })
    ]

-- The one sample that is new is written once.
emit-Inv :
    (d : Delivery) (st : StreamKey) (n : ℕ) (c : Capture)
    → key_of d ≡ (st, n)
    → Fresh st n c
    → Inv (emit (delivered d) c)
emit-Inv d st n c e f = record {
  valid = λ u. f.inv.valid u;
  once = λ u m. elim (Bool-cases (pair_key.same (key_of d) (u, m))) [
    | inr b ↦ omega (arith, times-append (u, m) c.output (delivered d), ap bit b, f.inv.once u m)
    | inl b ↦
        let same : (st, n) ≡ (u, m) = sym e ∙ (pair_key.same_iff (key_of d) (u, m)).0 b in
        subst
          (λ k.
            times k (c.output ++ delivered d ∷ [])
            ≤ bit (SequenceRanges.contains (ranges_at k.0 c) k.1))
          same
          (omega (
            arith,
            times-append (st, n) c.output (delivered d),
            ap bit f.known,
            f.unwritten,
            says_le (st, n) (delivered d),
          ))
  ];
}
  where
    says_le : (k : SampleKey) (e : Event) → says k e ≤ 1
    says_le k (delivered d) = bit_le (pair_key.same (key_of d) k)
    says_le k (retransmitted r) = omega arith
    says_le k (endpoint domain m at) = omega arith

deliver-Inv :
    (source recipient : Option String) (f : Frame) (s : Sample) (at : ℕ) (c : Capture)
    → Fresh (stream_of f s) s.sequence c
    → Inv (deliver source recipient f s at c).0
unfolding deliver
deliver-Inv none recipient f s at c h =
    Same-Inv (record { ranges = λ st. refl; written = λ k. refl }) h.inv
deliver-Inv (some source) none f s at c h =
    Same-Inv (record { ranges = λ st. refl; written = λ k. refl }) h.inv
deliver-Inv (some source) (some recipient) f s at c h =
    elim (Bool-cases (is_multicast f.row.destination)) [
      | inl e ↦ rw e h.inv
      | inr e ↦ rw e (emit-Inv _ (stream_of f s) s.sequence c refl h)
    ]

complete_sample-Inv :
    (f : Frame) (s : Sample) (payload : Bytes) (at : ℕ) (c : Capture)
    → Inv c
    → SequenceRanges.contains (ranges_at (stream_of f s) c) s.sequence ≡ false
    → Inv (complete_sample f s payload at c).0
unfolding complete_sample
complete_sample-Inv f s payload at c v new =
    let h = note_seen-Fresh (stream_of f s) s.sequence c v new in
    elim (Bool-cases (is_discovery s.writer_guid)) [
      | inl e ↦ rw e (Same-Inv (note_endpoint-Same f.domain at (endpoint_metadata payload) _) h.inv)
      | inr e ↦ rw e (elim (Bool-cases (not (is_user s.writer_guid))) [
        | inl e1 ↦ rw e1 h.inv
        | inr e1 ↦ rw e1 (deliver-Inv _ _ f s at (note_seen (stream_of f s) s.sequence c) h)
      ])
    ]

assembled-Inv :
    (a : Assembly) (f : Frame) (s : Sample) (c : Capture)
    → Inv c
    → SequenceRanges.contains (ranges_at (stream_of f s) c) s.sequence ≡ false
    → Inv (assembled a f s c).0
unfolding assembled
assembled-Inv (waiting g) f s c v new =
    Same-Inv (record { ranges = λ st. refl; written = λ k. refl }) v
assembled-Inv (failed e g) f s c v new =
    Same-Inv (record { ranges = λ st. refl; written = λ k. refl }) v
assembled-Inv (complete payload at) f s c v new =
    complete_sample-Inv f s payload at _
      (Same-Inv (record { ranges = λ st. refl; written = λ k. refl }) v) new

take_new-Inv :
    (o : Option Fragment) (f : Frame) (s : Sample) (c : Capture)
    → Inv c
    → SequenceRanges.contains (ranges_at (stream_of f s) c) s.sequence ≡ false
    → Inv (take_new o f s c).0
unfolding take_new
take_new-Inv none f s c v new = complete_sample-Inv f s s.payload f.row.time c v new
take_new-Inv (some fragment) f s c v new = assembled-Inv _ f s c v new

take_sample-Inv : (f : Frame) (s : Sample) (c : Capture) → Inv c → Inv (take_sample f s c).0
unfolding take_sample
take_sample-Inv f s c v =
    let key = stream_of f s in
    let c1 : Capture = record c { seen = insert key (ranges_at key c) c.seen } in
    let (path, c2) = note_path f.row.port f s c1 in
    let c3 = if repeated f s c1 && path then retransmit f s c2 else c2 in
    let v1 : Inv c1 =
      Same-Inv
        (record { ranges = λ st. get_default-insert_self key st [] c.seen; written = λ k. refl })
        v in
    let v2 : Inv c2 = Same-Inv (note_path-Same f.row.port f s c1) v1 in
    let v3 : Inv c3 =
      either (repeated f s c1 && path) c2 (retransmit f s c2) v2
        (Same-Inv (retransmit-Same f s c2) v2) in
    elim (Bool-cases (SequenceRanges.contains (ranges_at key c3) s.sequence)) [
      | inl e ↦ rw e v3
      | inr e ↦ rw e (take_new-Inv s.fragment f s c3 v3 e)
    ]
  where
    either : (b : Bool) (c d : Capture) → Inv c → Inv d → Inv (if b then d else c)
    either true c d u w = w
    either false c d u w = u

take_request-Same :
    (f : Frame) (writer reader : Bytes) (n : ℕ) (c : Capture)
    → Same c (take_request f writer reader n c)
unfolding take_request
take_request-Same f writer reader n c = record {
  ranges = λ st. ground arith;
  written = λ k. ground arith;
}

take_item-Inv : (f : Frame) (i : Item) (c : Capture) → Inv c → Inv (take_item f i c).0
unfolding take_item
take_item-Inv f (repair_request writer reader n) c v =
    Same-Inv (take_request-Same f writer reader n c) v
take_item-Inv f (sample s) c v = take_sample-Inv f s c v

take_then-Inv :
    (r : Capture × Option Error) (rest : Capture → Capture × Option Error)
    → Inv r.0
    → ((c : Capture) → Inv c → Inv (rest c).0)
    → Inv (take_then r rest).0
unfolding take_then
take_then-Inv (c, some e) rest v k = v
take_then-Inv (c, none) rest v k = k c v

take_items-Inv :
    (f : Frame) (items : List Item) (end : End) (c : Capture)
    → Inv c
    → Inv (take_items f items end c).0
unfolding take_items
take_items-Inv f [] end c v = v
take_items-Inv f (item ∷ items) end c v =
    take_then-Inv (take_item f item c) (take_items f items end) (take_item-Inv f item c v)
      (λ d w. take_items-Inv f items end d w)

take_payload-Inv : (o : Option Bytes) (f : Frame) (c : Capture) → Inv c → Inv (take_payload o f c).0
unfolding take_payload
take_payload-Inv none f c v = v
take_payload-Inv (some payload) f c v =
    let y = submessages payload in take_items-Inv f y.items y.end c v

process-Inv : (row : Row) (domain : ℕ) (c : Capture) → Inv c → Inv (process row domain c).0
unfolding process expire
process-Inv row domain c v =
    let old : Inv (expire row.time c) =
      Same-Inv (record { ranges = λ st. refl; written = λ k. refl }) v in
    elim (Bool-cases (is_local row.source c)) [
      | inl e ↦ rw e (take_payload-Inv row.payload _ _ old)
      | inr e ↦ rw e (elim (Bool-cases (is_local row.destination c)) [
        | inl e1 ↦ rw e1 (take_payload-Inv row.payload _ _ old)
        | inr e1 ↦ rw e1 v
      ])
    ]

run-Inv : (rows : List (Row × ℕ)) (c : Capture) → Inv c → Inv (run rows c)
run-Inv [] c v = v
run-Inv ((row, domain) ∷ rows) c v = run-Inv rows _ (process-Inv row domain c v)

init-Inv :
    (observer run_id : String) (nodes : Dict Ip String) (local_ips : List Ip) {c : Capture}
    → init observer run_id nodes local_ips ≡ some c
    → Inv c
unfolding init
init-Inv observer run_id nodes local_ips {c} e =
    elim (Bool-cases (str_eq run_id "" || not (any (λ entry. str_eq entry.1 observer) nodes))) [
      | inl b ↦ absurd (cc (rw (b, init) at e))
      | inr b ↦
          subst Inv (some-injective (fresh nodes local_ips) c (rw (b, init) at e))
            (record { valid = λ st. tt; once = λ st n. omega arith })
    ]

-- Whatever frames a new `WireCapture` processes, and however often a sample is repeated on the wire, in
-- whole or in fragments, its output says at most once that the sample was sent to a destination, and at
-- most once that it was received there.
pub run_once :
    (observer run_id : String) (nodes : Dict Ip String) (local_ips : List Ip) {c : Capture}
    (rows : List (Row × ℕ)) (k : SampleKey)
    → init observer run_id nodes local_ips ≡ some c
    → times k (run rows c).output ≤ 1
run_once observer run_id nodes local_ips rows k e =
    let v = run-Inv rows _ (init-Inv observer run_id nodes local_ips e) in
    omega (arith, v.once k.0 k.1, bit_le (SequenceRanges.contains (ranges_at k.0 (run rows _)) k.1))
