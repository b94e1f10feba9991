-- ===== src/Traffic/Accumulator/Windows.antt =====
-- Which capture windows `drain_ready` closes, and when.
use act_sim_scope_infra.Common.{
  ℕ, zero, suc, ◌+◌, ◌-◌, ◌≤◌, ◌<◌, ◌≡◌, refl, some, List, [], ◌∷◌, arith, Dict, leb, inl, inr,
  Bool-cases, lookup, pair_key, string_key, All,
}
use act_sim_scope_infra.Traffic.Accumulator.{
  Accumulator, close_window, Report, reporter, cutoff_at, close_windows, drain_ready, remember,
  earliest, FragmentKey,
}
use act_sim_scope_infra.Traffic.Accumulator.Inv.{IsValid}

-- The reports cover the time from one bound to another without a gap, in order, each one interval
-- long, and each ends at the cutoff or before.
abbrev pub Covers : ℕ → ℕ → ℕ → List Report → ℕ → Type 0
Covers i cutoff start [] stop = start ≡ stop
Covers i cutoff start (r ∷ rs) stop =
    (r.capture_window_start_ms ≡ start)
    × (r.capture_timestamp ≡ start + i)
    × (start + i ≤ cutoff)
    × Covers i cutoff (start + i) rs stop

report_times :
    (now : ℕ) (a0 : Accumulator) (start : ℕ) (a : Accumulator)
    → ((reporter now a0 start a).capture_window_start_ms ≡ start)
      × ((reporter now a0 start a).capture_timestamp ≡ start + a.interval_ms)
unfolding reporter
report_times now a0 start a = (refl, refl)

-- Where the loop stands when it ends.
pub record Closed (i cutoff start : ℕ) (rs : List Report) (a : Accumulator) : Type 0 where
  pub stop : ℕ
  pub covers : Covers i cutoff start rs stop
  pub next : a.next_window ≡ some stop
  pub waits : cutoff < stop + i

close_windows-Closed :
    (now : ℕ) (a0 : Accumulator) (f cutoff start : ℕ) (a : Accumulator)
    → 1 ≤ a.interval_ms
    → cutoff < start + f
    → a.next_window ≡ some start
    → let (rs, a') = close_windows f (reporter now a0) cutoff (some start) a in
      Closed a.interval_ms cutoff start rs a'
unfolding close_windows
close_windows-Closed now a0 zero cutoff start a pos h e = record {
  stop = start;
  covers = refl;
  next = e;
  waits = omega arith;
}
close_windows-Closed now a0 (suc f) cutoff start a pos h e =
    elim (Bool-cases (leb (start + a.interval_ms) cutoff)) [
      | inr c ↦
          rw (c, close_windows)
            (record { stop = start; covers = refl; next = e; waits = ground arith })
      | inl c ↦
          rw (c, close_windows)
            (let t = report_times now a0 start a in
              let later =
                close_windows-Closed now a0 f cutoff (start + a.interval_ms) (close_window start a)
                  pos (omega arith) (unfold close_window in refl) in
              record {
                stop = later.stop;
                covers = (t.0, t.1, ground arith, later.covers);
                next = later.next;
                waits = later.waits;
              })
    ]

-- The cutoff lies behind the settling period and before every fragment that is held.
earliest-le : (t : ℕ) (d : Dict FragmentKey ℕ) → earliest t d ≤ t
unfolding earliest
earliest-le t [] = omega arith
earliest-le t ((key, held) ∷ d) = omega (arith, earliest-le t d)

-- No later time has these two properties.
le-earliest :
    (n t : ℕ) (d : Dict FragmentKey ℕ) → n ≤ t → All (λ held. n ≤ held.1) d → n ≤ earliest t d
unfolding earliest
le-earliest n t [] h l = h
le-earliest n t ((key, held) ∷ d) h (l, ls) = omega (arith, l, le-earliest n t d h ls)

earliest-le-held :
    (t : ℕ) (d : Dict FragmentKey ℕ) (key : FragmentKey) (held : ℕ)
    → lookup key d ≡ some held
    → earliest t d ≤ held
unfolding earliest
earliest-le-held t [] key held e = cc
earliest-le-held t ((k, h) ∷ d) key held e = ground (arith, earliest-le-held t d key held)

remember-Closed :
    (i cutoff start : ℕ) (rs qs : List Report) (a : Accumulator)
    → Closed i cutoff start rs a
    → Closed i cutoff start rs (remember qs a)
remember-Closed i cutoff start rs [] a c = c
remember-Closed i cutoff start rs (q ∷ qs) a c = record {
  stop = c.stop;
  covers = c.covers;
  next = c.next;
  waits = c.waits;
}

-- Up to when `drain_ready` closes windows: the last time that lies behind the settling period and not
-- after any fragment held.
pub record Cutoff (now : ℕ) (a : Accumulator) (cutoff : ℕ) : Type 0 where
  pub settled : cutoff ≤ now - a.settle_ms
  pub before_held :
      (key : FragmentKey) (held : ℕ) → lookup key a.pending_fragments ≡ some held → cutoff ≤ held
  pub greatest :
      (n : ℕ) → n ≤ now - a.settle_ms → All (λ held. n ≤ held.1) a.pending_fragments → n ≤ cutoff

cutoff_at-Cutoff : (now : ℕ) (a : Accumulator) → Cutoff now a (cutoff_at now a)
unfolding cutoff_at
cutoff_at-Cutoff now a = record {
  settled = earliest-le (now - a.settle_ms) a.pending_fragments;
  before_held = λ key held e. earliest-le-held (now - a.settle_ms) a.pending_fragments key held e;
  greatest = λ n h l. le-earliest n (now - a.settle_ms) a.pending_fragments h l;
}

-- From a valid object with a window to close next, `drain_ready` reports one window after another from
-- that one on, with no gap, each one interval long. All end at a cutoff or before, which is the last time
-- that lies behind the settling period and not after any fragment held; the object's next window is the
-- one behind the last, and it ends after the cutoff, so that none that could be closed is left.
pub drain_ready-Closed :
    (now : ℕ) (a : Accumulator) (start : ℕ)
    → IsValid a
    → a.next_window ≡ some start
    → (cutoff : ℕ) × Cutoff now a cutoff
      × Closed a.interval_ms cutoff start (drain_ready now a).0 (drain_ready now a).1
unfolding drain_ready
drain_ready-Closed now a start v e = (
  cutoff_at now a,
  cutoff_at-Cutoff now a,
  simp e (
      remember-Closed a.interval_ms (cutoff_at now a) start _ _ _ (
        close_windows-Closed now a (suc (cutoff_at now a)) (cutoff_at now a) start a v.positive
          (omega arith) e)),
)
