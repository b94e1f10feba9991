-- ===== src/Traffic/Accounting/Frames.antt =====
-- The frames that `FrameAccounting` keeps account of: those of collected groups and of open windows, the
-- late and the orphaned ones.
use act_sim_scope_infra.Common.{
  ℕ, ◌+◌, ◌-◌, ◌*◌, ◌≡◌, refl, ap, ◌∙◌, String, List, [], ◌∷◌, Bool, true, false, Option, none,
  some, ltb, if◌then◌else◌, Dict, lookup, Unique, AllHeld, AllHeld-erase, AllHeld-self,
  erase-Unique, sum_values, sum_values-erase, measure, string_key, pair_key, arith, inl, inr,
  Bool-cases, length, member, is_some,
}
use act_sim_scope_infra.Wire.Bytes.{Bytes}
use act_sim_scope_infra.Traffic.Counters.{FrameClass, TxClass, Packet}
use act_sim_scope_infra.Traffic.Accumulator.{
  Accumulator, FragmentKey, add_packet, is_late, window_of,
}
use act_sim_scope_infra.Traffic.Accumulator.Packets.{
  packets, held, in_domains, packets-IsMeasure, held-add_packet, held-add_packet_late,
}
use act_sim_scope_infra.Traffic.Accumulator.Fields.{
  late_packets-add_packet, release_fragment-SameFrames,
}
use act_sim_scope_infra.Traffic.Accounting.{
  Group, Accounting, Row, Outcome, missing_protocol, invalid_timestamp, skipped, row, second, emit,
  emit_all, drop_group, orphan, settle, settle_in, expire_groups, expire, is_fragment,
}
use act_sim_scope_infra.Traffic.Accounting.Fragments.{
  IsValid, AllCounted, IsCounted, fragments-settle,
}

abbrev group_packets : Dict FragmentKey Group → ℕ
group_packets = sum_values (λ g. g.packets)

-- The frames that the accumulator knows: in its open windows, or late.
abbrev pub accepted : Accumulator → ℕ
accepted a = held packets a + a.late_packets

-- All frames that are kept account of.
abbrev pub seen : Accounting → ℕ
seen a = accepted a.accumulator + a.orphan_packets + group_packets a.fragments

accepted-add_packet :
    (p : Packet) (a : Accumulator) → accepted (add_packet p a) ≡ accepted a + p.packet_count
accepted-add_packet p a =
    let late = late_packets-add_packet p a in
    elim (Bool-cases (is_late (window_of a.interval_ms p.timestamp_ms) a.closed_before)) [
      | inl e ↦ omega (
        arith,
        held-add_packet_late packets (λ q. q.packet_count) packets-IsMeasure p a e,
        (rw (e, if◌then◌else◌) at late),
      )
      | inr e ↦ omega (
        arith,
        held-add_packet packets (λ q. q.packet_count) packets-IsMeasure p a e,
        (rw (e, if◌then◌else◌) at late),
      )
    ]

emit-seen :
    (domain : ℕ) (source : String) (f : ℕ × ℕ) (c : FrameClass) (tx : TxClass) (i : Bool)
    (a : Accounting)
    → seen (emit domain source f c tx i a) ≡ seen a + 1
unfolding emit
emit-seen domain source f c tx i a = omega (
  arith,
  accepted-add_packet
      (record {
        domain_id = domain;
        frame_len = f.1;
        traffic_class = c;
        is_local_transmit = _;
        tx_class = tx;
        packet_count = 1;
        incomplete = i;
        timestamp_ms = _;
      })
      a.accumulator,
)

emit_all-seen :
    (domain : ℕ) (source : String) (fs : List (ℕ × ℕ)) (c : FrameClass) (tx : TxClass) (i : Bool)
    (a : Accounting)
    → seen (emit_all domain source fs c tx i a) ≡ seen a + length fs
unfolding emit_all
emit_all-seen domain source [] c tx i a = omega arith
emit_all-seen domain source (f ∷ fs) c tx i a = omega (
  arith,
  emit-seen domain source f c tx i a,
  emit_all-seen domain source fs c tx i (emit domain source f c tx i a),
)

drop_group-seen :
    (key : FragmentKey) (a : Accounting)
    → seen (drop_group key a) + measure (λ g. g.packets) (lookup key a.fragments) ≡ seen a
unfolding drop_group
drop_group-seen key a =
    let s = release_fragment-SameFrames key a.accumulator in
    omega (
      arith,
      ap (sum_values (in_domains packets)) s.windows,
      s.late_packets,
      sum_values-erase (λ g. g.packets) key a.fragments,
    )

settle-seen :
    (d : Option ℕ) (key : FragmentKey) (g : Group) (a : Accounting)
    → IsCounted g
    → seen (settle_in d key g a) ≡ seen a + g.packets
unfolding settle_in orphan
settle-seen none key g a c = omega arith
settle-seen (some d) key g a c = elim (Bool-cases (member d a.domains)) [
  | inl m ↦
      rw m (
        omega
          (arith, emit_all-seen d key.0 g.frames FrameClass.unknown TxClass.unknown true a, c.0))
  | inr m ↦ rw m (omega arith)
]

expire_one-seen :
    (key : FragmentKey) (g : Group) (a : Accounting)
    → IsCounted g
    → lookup key a.fragments ≡ some g
    → seen (settle key g (drop_group key a)) ≡ seen a
expire_one-seen key g a c e = omega (
  arith,
  settle-seen g.domain key g (drop_group key a) c,
  drop_group-seen key a,
  ap (measure (λ g. g.packets)) e,
)

expire_groups-seen :
    (now : ℕ) (rest : Dict FragmentKey Group) (a : Accounting)
    → Unique rest
    → AllCounted rest
    → Unique a.fragments
    → AllHeld rest a.fragments
    → seen (expire_groups now rest a) ≡ seen a
unfolding expire_groups
expire_groups-seen now [] a r c u h = refl
expire_groups-seen now ((key, g) ∷ rest) a r c u h =
    elim (Bool-cases (ltb (now - g.at) (5 * second))) [
      | inl e ↦ rw (e, expire_groups) (expire_groups-seen now rest a r.1 c.1 u h.1)
      | inr e ↦
          let b = settle key g (drop_group key a) in
          let left = fragments-settle g.domain key g a in
          rw (e, expire_groups)
            (expire_groups-seen now rest b r.1 c.1 (rw left (erase-Unique key a.fragments u))
                (rw left (AllHeld-erase key rest a.fragments u r.0 h.1))
              ∙ expire_one-seen key g a c.0 h.0)
    ]

pub expire-seen : (now : ℕ) (a : Accounting) → IsValid a → seen (expire now a) ≡ seen a
unfolding expire
expire-seen now a v =
    expire_groups-seen now a.fragments a v.unique v.counted v.unique (AllHeld-self _ v.unique)

-- A row without a domain, by whether it is a fragment and has a prefix: the datagram that it completes is
-- let go with the frames collected before, a fragment goes on to be held, and another row adds none.
abbrev pub IsUnattributed : Bool → Bool → ℕ → ℕ → ℕ → Type 0
IsUnattributed true true collected before after = after + collected ≡ before
IsUnattributed true false collected before after = after ≡ before + 1
IsUnattributed false has_prefix collected before after = after ≡ before

-- What a processed row adds, where so many frames of its datagram were collected before.
abbrev pub IsSeen : Row → ℕ → Outcome → ℕ → ℕ → Type 0
IsSeen r collected missing_protocol before after = after ≡ before
IsSeen r collected invalid_timestamp before after = after ≡ before
IsSeen r collected skipped before after = after ≡ before
IsSeen r collected (row none) before after =
    IsUnattributed (is_fragment r) (is_some r.guid_prefix) collected before after
IsSeen r collected (row (some d)) before after = after ≡ before + 1

-- The frames collected of the row's datagram.
abbrev pub collected_in : Dict FragmentKey Group → Option String → Row → ℕ
collected_in groups none r = 0
collected_in groups (some source) r =
    measure (λ g. g.packets) (lookup (source, (r.destination, r.ip_id)) groups)
