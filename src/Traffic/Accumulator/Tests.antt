-- ===== src/Traffic/Accumulator/Tests.antt =====
-- `TrafficAccumulator` on small runs, and the theorems at them.
use act_sim_scope_infra.Common.{
  ℕ, ◌≡◌, refl, some, List, [], ◌∷◌, false, true, string_key, pair_key, ◌+◌,
}
use act_sim_scope_infra.Traffic.Counters.{Packet, FrameClass, TxClass}
use act_sim_scope_infra.Traffic.Accumulator.{
  Accumulator, init, fresh, add_packet, drain_ready, hold_fragment, close_windows,
}
use act_sim_scope_infra.Traffic.Accumulator.Inv.{IsValid}
use act_sim_scope_infra.Traffic.Accumulator.Windows.{Cutoff, Closed, drain_ready-Closed}
use act_sim_scope_infra.Traffic.Accumulator.Packets.{packets, held, packets-IsMeasure}
use act_sim_scope_infra.Traffic.Accumulator.Runs.{
  Call, packet, hold, ready, run, run-IsValid, run_conserves, added, all_reported,
}

abbrev frame_at : ℕ → Packet
frame_at t = record {
  domain_id = 200;
  frame_len = 90;
  traffic_class = FrameClass.user_data;
  is_local_transmit = true;
  tx_class = TxClass.application;
  packet_count = 1;
  incomplete = false;
  timestamp_ms = t;
}

abbrev start_state : Accumulator
unfolding fresh
start_state = fresh 1000 (some 5000) 2000

-- A fragment held since 7100 keeps the window that begins at 7000 open.
abbrev calls : List Call
calls =
    packet (frame_at 5400)
    ∷ packet (frame_at 6100)
    ∷ hold ("10.0.0.1", ("10.0.0.2", "0x1")) 7100
    ∷ packet (frame_at 7900)
    ∷ ready 12000
    ∷ packet (frame_at 5500)
    ∷ []

calls_left : (run calls start_state).next_window ≡ some 7000
unfolding fresh add_packet drain_ready hold_fragment close_windows
calls_left = refl

run-IsValid_example : IsValid (run calls start_state)
unfolding init
run-IsValid_example = run-IsValid 1000 (some 5000) 2000 calls refl

run_conserves_example :
    held packets (run calls start_state)
      + all_reported packets (λ p. p.packet_count) calls start_state
    ≡ held packets start_state + added packets (λ p. p.packet_count) calls start_state
run_conserves_example =
    run_conserves packets (λ p. p.packet_count) packets-IsMeasure calls start_state

abbrev loaded : Accumulator
loaded = run (packet (frame_at 5400) ∷ packet (frame_at 6100) ∷ []) start_state

loaded_next : loaded.next_window ≡ some 5000
unfolding fresh add_packet
loaded_next = refl

loaded-IsValid : IsValid loaded
unfolding init
loaded-IsValid =
    run-IsValid 1000 (some 5000) 2000 (packet (frame_at 5400) ∷ packet (frame_at 6100) ∷ []) refl

drain_ready-Closed_example :
    (cutoff : ℕ) × Cutoff 12000 loaded cutoff
    × Closed loaded.interval_ms cutoff 5000
        (drain_ready 12000 loaded).0
        (drain_ready 12000 loaded).1
drain_ready-Closed_example = drain_ready-Closed 12000 loaded 5000 loaded-IsValid loaded_next
