-- ===== src/Traffic/Accumulator/Runs.antt =====
-- `TrafficAccumulator` under any sequence of calls; its lock makes each call one step.
use act_sim_scope_infra.Common.{
  ℕ, ◌+◌, ◌≡◌, refl, Option, some, List, [], ◌∷◌, arith, String, inl, inr, Bool-cases,
  if◌then◌else◌,
}
use act_sim_scope_infra.Traffic.Counters.{Counters, Packet}
use act_sim_scope_infra.Traffic.Accumulator.{
  Accumulator, FragmentKey, Report, window_of, is_late, init, add_packet, set_capture_status,
  hold_fragment, release_fragment, note_invalid_row, drain_ready, drain,
}
use act_sim_scope_infra.Traffic.Accumulator.Inv.{IsValid}
use act_sim_scope_infra.Traffic.Accumulator.Keeps.{
  add_packet-IsValid, drain_ready-IsValid, drain-IsValid, set_capture_status-IsValid,
  hold_fragment-IsValid, release_fragment-IsValid, note_invalid_row-IsValid, init-IsValid,
}
use act_sim_scope_infra.Traffic.Accumulator.Packets.{
  IsMeasure, held, reported, in_domains, drain_all, held-drain_ready, held-add_packet,
  held-add_packet_late,
}

pub data Call : Type 0 where
  set_status : String → ℕ → Call
  hold : FragmentKey → ℕ → Call
  release : FragmentKey → Call
  invalid_row : Option ℕ → Call
  packet : Packet → Call
  ready : ℕ → Call
  drained : Call

-- One call: the reports that it returns, and the object after it. What `drain` returns is no report.
abbrev pub call : Call → Accumulator → List Report × Accumulator
call (set_status s now) a = ([], set_capture_status s now a)
call (hold key t) a = ([], hold_fragment key t a)
call (release key) a = ([], release_fragment key a)
call (invalid_row t) a = ([], note_invalid_row t a)
call (packet p) a = ([], add_packet p a)
call (ready now) a = drain_ready now a
call drained a = ([], (drain a).1)

abbrev pub run : List Call → Accumulator → Accumulator
run [] a = a
run (c ∷ cs) a = run cs (call c a).1

call-IsValid : (c : Call) (a : Accumulator) → IsValid a → IsValid (call c a).1
call-IsValid (set_status s now) a = set_capture_status-IsValid s now a
call-IsValid (hold key t) a = hold_fragment-IsValid key t a
call-IsValid (release key) a = release_fragment-IsValid key a
call-IsValid (invalid_row t) a = note_invalid_row-IsValid t a
call-IsValid (packet p) a = add_packet-IsValid p a
call-IsValid (ready now) a = drain_ready-IsValid now a
call-IsValid drained a = drain-IsValid a

run-IsValid' : (cs : List Call) (a : Accumulator) → IsValid a → IsValid (run cs a)
run-IsValid' [] a v = v
run-IsValid' (c ∷ cs) a v = run-IsValid' cs (call c a).1 (call-IsValid c a v)

-- However a new object is called, its open windows start at multiples of the interval, none before the
-- next window to close, each window once; and in the counters of each domain the frame classes, the
-- directions and the transmit classes add up.
pub run-IsValid :
    (interval : ℕ) (start : Option ℕ) (settle : ℕ) {a : Accumulator} (cs : List Call)
    → init interval start settle ≡ some a
    → IsValid (run cs a)
run-IsValid interval start settle cs e = run-IsValid' cs _ (init-IsValid interval start settle e)

module _ (of : Counters → ℕ) (weight : Packet → ℕ) where
  -- What a call adds: a frame for a closed window is called late, and is not in any report.
  abbrev pub added_by : Call → Accumulator → ℕ
  added_by (packet p) a =
      if is_late (window_of a.interval_ms p.timestamp_ms) a.closed_before then 0 else weight p
  added_by c a = 0

  abbrev pub added : List Call → Accumulator → ℕ
  added [] a = 0
  added (c ∷ cs) a = added_by c a + added cs (call c a).1

  -- What a call gives away: the counters of its reports, or those that `drain` returns.
  abbrev pub reported_by : Call → Accumulator → ℕ
  reported_by drained a = in_domains of (drain a).0
  reported_by c a = reported of (call c a).0

  abbrev pub all_reported : List Call → Accumulator → ℕ
  all_reported [] a = 0
  all_reported (c ∷ cs) a = reported_by c a + all_reported cs (call c a).1

module _ (of : Counters → ℕ) (weight : Packet → ℕ) (u : IsMeasure of weight) where
  call_conserves :
      (c : Call) (a : Accumulator)
      → held of (call c a).1 + reported_by of weight c a ≡ held of a + added_by of weight c a
  call_conserves (set_status s now) a = unfold set_capture_status in ground arith
  call_conserves (hold key t) a = unfold hold_fragment in refl
  call_conserves (release key) a = unfold release_fragment in refl
  call_conserves (invalid_row t) a = unfold note_invalid_row in ground arith
  call_conserves (packet p) a =
      elim (Bool-cases (is_late (window_of a.interval_ms p.timestamp_ms) a.closed_before)) [
        | inl e ↦ rw (e, if◌then◌else◌) (omega (arith, held-add_packet_late of weight u p a e))
        | inr e ↦ rw (e, if◌then◌else◌) (omega (arith, held-add_packet of weight u p a e))
      ]
  call_conserves (ready now) a = omega (arith, held-drain_ready of weight u now a)
  call_conserves drained a = let d = drain_all of weight u a in omega (arith, d.0, d.1)

  -- However the object is called, what its open windows hold in the end and all that was reported, or returned by `drain`, add up
  -- to what they held at first and the frames added on time.
  pub run_conserves :
      (cs : List Call) (a : Accumulator)
      → held of (run cs a) + all_reported of weight cs a ≡ held of a + added of weight cs a
  run_conserves [] a = refl
  run_conserves (c ∷ cs) a = omega (arith, call_conserves c a, run_conserves cs (call c a).1)
