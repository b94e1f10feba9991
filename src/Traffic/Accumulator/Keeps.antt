-- ===== src/Traffic/Accumulator/Keeps.antt =====
-- The methods of `TrafficAccumulator` and its invariant.
use mathlib.Core.Option.{some-injective}
use mathlib.Core.Path.{subst}
use act_sim_scope_infra.Common.{
  ℕ, zero, suc, ◌+◌, ◌≤◌, ◌≡◌, refl, false, Option, none, some, List, [], ◌∷◌, arith, Dict, erase,
  Unique, erase-Unique, nat_key, ◌==◌, leb, ltb, inl, inr, Bool-cases, String, lookup,
}
use act_sim_scope_infra.Traffic.Counters.{Packet}
use act_sim_scope_infra.Traffic.Accumulator.{
  Accumulator, Domains, window_of, first_window, is_late, add_packet, close_window, Report, init,
  set_capture_status, hold_fragment, release_fragment, note_invalid_row, drain, close_windows,
  drain_ready, FragmentKey, remember, cutoff_at, reporter, fresh,
}
use act_sim_scope_infra.Traffic.Accumulator.Inv.{
  IsValid, IsStart, IsOpen, AllOpen, Matches, window_of-IsStart, IsStart-add, next_start, StartsAt,
  StartsAt-Matches, AllOpen-earlier, AllOpen-none, count_in-AllOpen, count_in-Unique,
}

-- The window that a packet on time falls in is open behind the new first window.
first_window-IsOpen :
    (i w : ℕ) (next closed : Option ℕ)
    → IsStart i w
    → Matches i next closed
    → is_late w closed ≡ false
    → IsOpen i (first_window w next closed) w
first_window-IsOpen i w none closed s m l = (omega arith, s)
first_window-IsOpen i w (some n) none s m l = ground arith
first_window-IsOpen i w (some n) (some c) s m l = ground arith

first_window-Matches :
    (i w : ℕ) (next closed : Option ℕ)
    → IsStart i w
    → Matches i next closed
    → Matches i (first_window w next closed) closed
first_window-Matches i w none none s m = s
first_window-Matches i w none (some c) s m = absurd (cc m.0)
first_window-Matches i w (some k) none s m = ground arith
first_window-Matches i w (some k) (some c) s m = m

first_window-AllOpen :
    (i w : ℕ) (next closed : Option ℕ) (ws : Dict ℕ Domains)
    → AllOpen i next ws
    → AllOpen i (first_window w next closed) ws
first_window-AllOpen i w none closed ws h = AllOpen-none i w ws h
first_window-AllOpen i w (some n) none ws h = elim (Bool-cases (ltb w n)) [
  | inl e ↦ rw e (AllOpen-earlier i n w ws (ground arith) h)
  | inr e ↦ rw e h
]
first_window-AllOpen i w (some n) (some c) ws h = h

pub add_packet-IsValid : (p : Packet) (a : Accumulator) → IsValid a → IsValid (add_packet p a)
unfolding add_packet
add_packet-IsValid p a v =
    let i = a.interval_ms in
    let w = window_of i p.timestamp_ms in
    let s = window_of-IsStart i p.timestamp_ms v.positive in
    let next = first_window w a.next_window a.closed_before in
    let kept = first_window-AllOpen i w a.next_window a.closed_before a.windows v.is_open in
    let m = first_window-Matches i w a.next_window a.closed_before s v.aligned in
    elim (Bool-cases (is_late w a.closed_before)) [
      | inl e ↦
          rw e (record { positive = v.positive; aligned = m; unique = v.unique; is_open = kept })
      | inr e ↦ rw e (record {
        positive = v.positive;
        aligned = m;
        unique = count_in-Unique p w a.windows v.unique;
        is_open =
            count_in-AllOpen i next p w a.windows
              (first_window-IsOpen i w a.next_window a.closed_before s v.aligned e) kept;
      })
    ]

-- Windows other than the first start an interval later or after that.
AllOpen-past :
    (i start : ℕ) (ws : Dict ℕ Domains)
    → 1 ≤ i
    → IsStart i start
    → lookup start ws ≡ none
    → AllOpen i (some start) ws
    → AllOpen i (some (start + i)) ws
AllOpen-past i start [] pos s l h = tt
AllOpen-past i start ((w, d) ∷ ws) pos s l h = elim (Bool-cases (w == start)) [
  | inl e ↦ absurd (cc (rw (e, lookup) at l))
  | inr e ↦ (
    (next_start i start w pos s h.0.1 (ground arith), h.0.1),
    h.1,
    AllOpen-past i start ws pos s (ground arith) h.2,
  )
]

-- Taking the first window out leaves those.
erase-AllOpen :
    (i start : ℕ) (ws : Dict ℕ Domains)
    → 1 ≤ i
    → IsStart i start
    → Unique ws
    → AllOpen i (some start) ws
    → AllOpen i (some (start + i)) (erase start ws)
erase-AllOpen i start [] pos s u h = tt
erase-AllOpen i start ((w, d) ∷ ws) pos s u h = elim (Bool-cases (w == start)) [
  | inl e ↦
      rw e (
        AllOpen-past i start ws pos s (let same : w ≡ start = ground arith in rw same at (u.0)) h.2)
  | inr e ↦ rw e (
    (next_start i start w pos s h.0.1 (ground arith), h.0.1),
    h.1,
    erase-AllOpen i start ws pos s u.1 h.2,
  )
]

close_window-IsValid :
    (start : ℕ) (a : Accumulator)
    → a.next_window ≡ some start
    → IsStart a.interval_ms start
    → IsValid a
    → IsValid (close_window start a)
unfolding close_window
close_window-IsValid start a e s v = record {
  positive = v.positive;
  aligned = (refl, IsStart-add a.interval_ms start v.positive s);
  unique = erase-Unique start a.windows v.unique;
  is_open = erase-AllOpen a.interval_ms start a.windows v.positive s v.unique (rw e at v.is_open);
}

close_windows-IsValid :
    (f : ℕ) (report : ℕ → Accumulator → Report) (cutoff : ℕ) (next : Option ℕ) (a : Accumulator)
    → a.next_window ≡ next
    → StartsAt a.interval_ms next
    → IsValid a
    → IsValid (close_windows f report cutoff next a).1
unfolding close_windows
close_windows-IsValid zero report cutoff next a e m v = v
close_windows-IsValid (suc f) report cutoff none a e m v = v
close_windows-IsValid (suc f) report cutoff (some start) a e m v =
    elim (Bool-cases (leb (start + a.interval_ms) cutoff)) [
      | inr c ↦ rw (c, close_windows) v
      | inl c ↦
          rw (c, close_windows)
            (close_windows-IsValid f report cutoff (some (start + a.interval_ms))
              (close_window start a) (unfold close_window in refl)
              (IsStart-add a.interval_ms start v.positive m) (close_window-IsValid start a e m v))
    ]

remember-IsValid : (rs : List Report) (a : Accumulator) → IsValid a → IsValid (remember rs a)
remember-IsValid [] a v = v
remember-IsValid (r ∷ rs) a v = record {
  positive = v.positive;
  aligned = v.aligned;
  unique = v.unique;
  is_open = v.is_open;
}

pub drain_ready-IsValid : (now : ℕ) (a : Accumulator) → IsValid a → IsValid (drain_ready now a).1
unfolding drain_ready
drain_ready-IsValid now a v = remember-IsValid _ _ (
    close_windows-IsValid (suc (cutoff_at now a)) (reporter now a) (cutoff_at now a) a.next_window a
      refl (StartsAt-Matches a.interval_ms a.next_window a.closed_before v.aligned) v)

pub drain-IsValid : (a : Accumulator) → IsValid a → IsValid (drain a).1
unfolding drain
drain-IsValid a v = record { positive = v.positive; aligned = v.aligned; unique = tt; is_open = tt }

-- A method that leaves the windows and their bounds alone.
same_windows :
    (a b : Accumulator)
    → b.interval_ms ≡ a.interval_ms
    → b.next_window ≡ a.next_window
    → b.closed_before ≡ a.closed_before
    → b.windows ≡ a.windows
    → IsValid a
    → IsValid b
same_windows a b p q r s v = record {
  positive = rw p v.positive;
  aligned = rw (p, q, r) v.aligned;
  unique = rw s v.unique;
  is_open = rw (p, q, s) v.is_open;
}

pub set_capture_status-IsValid :
    (status : String) (now : ℕ) (a : Accumulator)
    → IsValid a
    → IsValid (set_capture_status status now a)
unfolding set_capture_status
set_capture_status-IsValid status now a =
    same_windows a (set_capture_status status now a) (ground arith) (ground arith) (ground arith)
      (ground arith)

pub hold_fragment-IsValid :
    (key : FragmentKey) (t : ℕ) (a : Accumulator) → IsValid a → IsValid (hold_fragment key t a)
unfolding hold_fragment
hold_fragment-IsValid key t a = same_windows a (hold_fragment key t a) refl refl refl refl

pub release_fragment-IsValid :
    (key : FragmentKey) (a : Accumulator) → IsValid a → IsValid (release_fragment key a)
unfolding release_fragment
release_fragment-IsValid key a = same_windows a (release_fragment key a) refl refl refl refl

pub note_invalid_row-IsValid :
    (t : Option ℕ) (a : Accumulator) → IsValid a → IsValid (note_invalid_row t a)
unfolding note_invalid_row
note_invalid_row-IsValid none a = same_windows a (note_invalid_row none a) refl refl refl refl
note_invalid_row-IsValid (some t) a =
    same_windows a (note_invalid_row (some t) a) (ground arith) (ground arith) (ground arith)
      (ground arith)

fresh-IsValid :
    (interval : ℕ) (start : Option ℕ) (settle : ℕ)
    → 1 ≤ interval
    → IsValid (fresh interval start settle)
unfolding fresh
fresh-IsValid interval none settle h = record {
  positive = h;
  aligned = tt;
  unique = tt;
  is_open = tt;
}
fresh-IsValid interval (some t) settle h = record {
  positive = h;
  aligned = (refl, window_of-IsStart interval t h);
  unique = tt;
  is_open = tt;
}

pub init-IsValid :
    (interval : ℕ) (start : Option ℕ) (settle : ℕ) {a : Accumulator}
    → init interval start settle ≡ some a
    → IsValid a
unfolding init
init-IsValid interval start settle {a} e = elim (Bool-cases (ltb interval 1)) [
  | inl c ↦ absurd (cc (rw (c, init) at e))
  | inr c ↦
      subst IsValid (some-injective (fresh interval start settle) a (rw (c, init) at e))
        (fresh-IsValid interval start settle (ground arith))
]
