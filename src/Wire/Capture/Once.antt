-- ===== src/Wire/Capture/Once.antt =====
-- The samples that `WireCapture` has written, against the numbers that it has seen.
use act_sim_scope_infra.Common.{
  ℕ, ◌+◌, ◌≤◌, ◌≡◌, refl, ap, ◌∙◌, String, List, [], ◌∷◌, ◌++◌, Bool, true, false, not, ◌&&◌, ◌||◌,
  Option, none, some, ◌==◌, if◌then◌else◌, lookup, insert, get_default-insert, nat_key, pair_key,
  list_key, arith, inl, inr, Bool-cases, Option-cases, subst,
}
use act_sim_scope_infra.Wire.Bytes.{Bytes}
use act_sim_scope_infra.Wire.SequenceRanges
use act_sim_scope_infra.Wire.SequenceRanges.{Ranges}
use act_sim_scope_infra.Wire.SequenceRanges.Members.{IsValid, add_lem}
use act_sim_scope_infra.Wire.Submessages.Kinds.{Sample}
use act_sim_scope_infra.Wire.Capture.Repair.{Request, RequestKey}
use act_sim_scope_infra.Wire.Capture.State.{
  Capture, Event, Frame, Delivery, StreamKey, SampleKey, direction_key, retransmitted, delivered,
  emit, ranges_at, is_sent, is_user,
}
use act_sim_scope_infra.Wire.Capture.Resent.{note_path, retransmit_to, retransmit}

abbrev pub key_of : Delivery → SampleKey
key_of d = ((d.domain, (d.writer_guid, (d.destination_ip, d.event))), d.sequence)

abbrev pub bit : Bool → ℕ
bit true = 1
bit false = 0

abbrev pub says : SampleKey → Event → ℕ
says k (delivered d) = bit (pair_key.same (key_of d) k)
says k e = 0

-- How often a sample is said to be sent, or to be received, at a destination.
abbrev pub times : SampleKey → List Event → ℕ
times k [] = 0
times k (e ∷ es) = says k e + times k es

pub times-append :
    (k : SampleKey) (es : List Event) (e : Event) → times k (es ++ e ∷ []) ≡ times k es + says k e
times-append k [] e = omega arith
times-append k (x ∷ es) e = omega (arith, times-append k es e)

-- What was written is among the numbers seen.
pub record Inv (c : Capture) : Type 0 where
  pub valid : (st : StreamKey) → IsValid (ranges_at st c)
  pub once :
      (st : StreamKey) (n : ℕ)
      → times (st, n) c.output ≤ bit (SequenceRanges.contains (ranges_at st c) n)

-- Two states with the same numbers seen and the same samples written.
pub record Same (c d : Capture) : Type 0 where
  pub ranges : (st : StreamKey) → ranges_at st d ≡ ranges_at st c
  pub written : (k : SampleKey) → times k d.output ≡ times k c.output

pub Same-Inv : {c d : Capture} → Same c d → Inv c → Inv d
Same-Inv s v = record {
  valid = λ st. rw (s.ranges) (v.valid st);
  once = λ st n. rw (s.ranges, s.written) (v.once st n);
}

pub Same-refl : (c : Capture) → Same c c
Same-refl c = record { ranges = λ st. refl; written = λ k. refl }

Same-trans : {c d e : Capture} → Same c d → Same d e → Same c e
Same-trans s t = record {
  ranges = λ st. t.ranges st ∙ s.ranges st;
  written = λ k. t.written k ∙ s.written k;
}

-- An event that is not a delivery.
emit-Same : (e : Event) (c : Capture) → ((k : SampleKey) → says k e ≡ 0) → Same c (emit e c)
emit-Same e c h = record {
  ranges = λ st. refl;
  written = λ k. omega (arith, times-append k c.output e, h k);
}

pub note_path-Same :
    (port : Option ℕ) (f : Frame) (s : Sample) (c : Capture) → Same c (note_path port f s c).1
unfolding note_path
note_path-Same none f s c = Same-refl c
note_path-Same (some port) f s c = elim (Bool-cases (is_sent f.event && is_user s.writer_guid)) [
  | inl e ↦ rw e (record { ranges = λ st. refl; written = λ k. refl })
  | inr e ↦ rw e (Same-refl c)
]

retransmit_to-Same :
    (reader : Option (Bytes × ℕ)) (port : Option ℕ) (source recipient : Option String)
    (key : RequestKey) (q : Request) (f : Frame) (s : Sample) (c : Capture)
    → Same c (retransmit_to reader port source recipient key q f s c)
unfolding retransmit_to
retransmit_to-Same (some reader) (some port) (some source) (some recipient) key q f s c = record {
  ranges = λ st. refl;
  written = λ k. omega (arith, times-append k c.output (retransmitted _));
}
retransmit_to-Same none port source recipient key q f s c = Same-refl c
retransmit_to-Same (some reader) none source recipient key q f s c = Same-refl c
retransmit_to-Same (some reader) (some port) none recipient key q f s c = Same-refl c
retransmit_to-Same (some reader) (some port) (some source) none key q f s c = Same-refl c

pub retransmit-Same : (f : Frame) (s : Sample) (c : Capture) → Same c (retransmit f s c)
unfolding retransmit
retransmit-Same f s c =
    let key : RequestKey =
      (f.domain, (s.writer_guid, (s.sequence, (f.row.source, f.row.destination)))) in
    elim (Option-cases (lookup key c.requests)) [
      | inl e ↦ rw (e, retransmit) (Same-refl c)
      | inr (q, e) ↦ elim (Bool-cases (is_sent f.event && not q.emitted)) [
        | inl b ↦ rw (e, b, retransmit) (retransmit_to-Same _ _ _ _ key q f s c)
        | inr b ↦ rw (e, b, retransmit) (Same-refl c)
      ]
    ]

-- `seen.add` of a number that is not seen.
abbrev pub note_seen : StreamKey → ℕ → Capture → Capture
note_seen key n c = record c { seen = insert key (SequenceRanges.add (ranges_at key c) n).0 c.seen }

module _ (key st : StreamKey) (n : ℕ) (c : Capture) where
  ranges-note_seen : ranges_at st (note_seen key n c) ≡ (
      if pair_key.same key st then (SequenceRanges.add (ranges_at key c) n).0 else ranges_at st c)
  ranges-note_seen = get_default-insert key st _ [] c.seen

  ranges-note_seen_same :
      pair_key.same key st ≡ true
      → ranges_at st (note_seen key n c) ≡ (SequenceRanges.add (ranges_at key c) n).0
  ranges-note_seen_same e = rw (e, if◌then◌else◌) at ranges-note_seen

  ranges-note_seen_other :
      pair_key.same key st ≡ false → ranges_at st (note_seen key n c) ≡ ranges_at st c
  ranges-note_seen_other e = rw (e, if◌then◌else◌) at ranges-note_seen

-- What holds once a new number is seen, and nothing is written of it.
pub record Fresh (key : StreamKey) (n : ℕ) (c : Capture) : Type 0 where
  pub inv : Inv c
  pub known : SequenceRanges.contains (ranges_at key c) n ≡ true
  pub unwritten : times (key, n) c.output ≡ 0

bit-or : (b c : Bool) (n : ℕ) → n ≤ bit c → n ≤ bit (b || c)
bit-or true true n h = h
bit-or true false n h = omega (arith, h)
bit-or false c n h = h

note_seen-Inv :
    (key st : StreamKey) (n : ℕ) (c : Capture)
    → Inv c
    → IsValid (ranges_at st (note_seen key n c))
      × ((m : ℕ)
          → times (st, m) c.output
            ≤ bit (SequenceRanges.contains (ranges_at st (note_seen key n c)) m))
note_seen-Inv key st n c v = elim (Bool-cases (pair_key.same key st)) [
  | inr e ↦
      let same = ranges-note_seen_other key st n c e in
      (rw same (v.valid st), λ m. rw same (v.once st m))
  | inl e ↦
      let same = ranges-note_seen_same key st n c e in
      let eq : key ≡ st = (pair_key.same_iff key st).0 e in
      (
        rw same (add_lem (ranges_at key c) n 0 (v.valid key)).0,
        λ m.
            rw (same, (add_lem (ranges_at key c) n m (v.valid key)).2)
              (subst
                (λ s.
                  times (s, m) c.output
                  ≤ bit (m == n || SequenceRanges.contains (ranges_at key c) m))
                eq (bit-or (m == n) _ _ (v.once key m))),
      )
]

pub note_seen-Fresh :
    (key : StreamKey) (n : ℕ) (c : Capture)
    → Inv c
    → SequenceRanges.contains (ranges_at key c) n ≡ false
    → Fresh key n (note_seen key n c)
note_seen-Fresh key n c v e = record {
  inv = record {
    valid = λ st. (note_seen-Inv key st n c v).0;
    once = λ st m. (note_seen-Inv key st n c v).1 m;
  };
  known =
      ap (λ r. SequenceRanges.contains r n)
        (ranges-note_seen_same key key n c ((pair_key.same_iff key key).1 refl))
      ∙ (add_lem (ranges_at key c) n n (v.valid key)).2
      ∙ ground arith;
  unwritten = omega (arith, v.once key n, ap bit e);
}
