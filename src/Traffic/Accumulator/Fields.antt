-- ===== src/Traffic/Accumulator/Fields.antt =====
-- What the methods called by `FrameAccounting` do to the fragments held and the orphan counters.
use act_sim_scope_infra.Common.{
  ◌+◌, if◌then◌else◌, ℕ, ◌≡◌, refl, insert, erase, get_default, string_key, pair_key, arith,
}
use act_sim_scope_infra.Traffic.Counters.{Packet}
use act_sim_scope_infra.Traffic.Accumulator.{
  Accumulator, FragmentKey, add_packet, hold_fragment, release_fragment, is_late, window_of,
}

-- The fields that belong to the fragments.
pub record SameFragments (a b : Accumulator) : Type 0 where
  pub pending : b.pending_fragments ≡ a.pending_fragments
  pub packets : b.orphan_fragment_packets ≡ a.orphan_fragment_packets
  pub bytes : b.orphan_fragment_bytes ≡ a.orphan_fragment_bytes

pub add_packet-SameFragments : (p : Packet) (a : Accumulator) → SameFragments a (add_packet p a)
unfolding add_packet
add_packet-SameFragments p a = record {
  pending = ground arith;
  packets = ground arith;
  bytes = ground arith;
}

module _ (key : FragmentKey) (t : ℕ) (a : Accumulator) where
  pub pending-hold_fragment :
      (hold_fragment key t a).pending_fragments
      ≡ insert key (get_default key t a.pending_fragments) a.pending_fragments
  unfolding hold_fragment
  pending-hold_fragment = refl

  pub orphans-hold_fragment :
      ((hold_fragment key t a).orphan_fragment_packets ≡ a.orphan_fragment_packets)
      × ((hold_fragment key t a).orphan_fragment_bytes ≡ a.orphan_fragment_bytes)
  unfolding hold_fragment
  orphans-hold_fragment = (refl, refl)

module _ (key : FragmentKey) (a : Accumulator) where
  pub pending-release_fragment :
      (release_fragment key a).pending_fragments ≡ erase key a.pending_fragments
  unfolding release_fragment
  pending-release_fragment = refl

  pub orphans-release_fragment :
      ((release_fragment key a).orphan_fragment_packets ≡ a.orphan_fragment_packets)
      × ((release_fragment key a).orphan_fragment_bytes ≡ a.orphan_fragment_bytes)
  unfolding release_fragment
  orphans-release_fragment = (refl, refl)

pub late_packets-add_packet :
    (p : Packet) (a : Accumulator)
    → (add_packet p a).late_packets ≡ (
        if is_late (window_of a.interval_ms p.timestamp_ms) a.closed_before
        then a.late_packets + p.packet_count
        else a.late_packets)
unfolding add_packet
late_packets-add_packet p a = ground arith

-- Neither touches the windows and the late frames.
pub record SameFrames (a b : Accumulator) : Type 0 where
  pub windows : b.windows ≡ a.windows
  pub late_packets : b.late_packets ≡ a.late_packets

pub hold_fragment-SameFrames :
    (key : FragmentKey) (t : ℕ) (a : Accumulator) → SameFrames a (hold_fragment key t a)
unfolding hold_fragment
hold_fragment-SameFrames key t a = record { windows = refl; late_packets = refl }

pub release_fragment-SameFrames :
    (key : FragmentKey) (a : Accumulator) → SameFrames a (release_fragment key a)
unfolding release_fragment
release_fragment-SameFrames key a = record { windows = refl; late_packets = refl }
