-- ===== src/Traffic/Accumulator.antt =====
-- `class TrafficAccumulator` of debug/scripts/domain_traffic_monitor.py. Its lock makes each method one
-- step; a method takes the object and returns it changed. Times are in milliseconds, from 0 on.
pub mod Inv
pub mod Keeps
pub mod Packets
pub mod Windows
pub mod Fields
pub mod Runs
mod Tests
use act_sim_scope_infra.Common.{
  ℕ, zero, suc, ◌+◌, ◌-◌, ◌*◌, ◌/◌, ◌≤◌, min, String, List, [], ◌∷◌, ◌++◌, Bool, true, false, ◌&&◌,
  ◌||◌, Option, none, some, ltb, leb, ◌==◌, if◌then◌else◌, str_eq, Dict, lookup, insert, erase,
  get_default, nat_key, string_key, pair_key, member, discard, update, range_step,
}
use act_sim_scope_infra.Traffic.Counters.{
  Counters, empty_counters, Packet, count_packet, add_counters,
}

-- `(ip.src, ip.dst, ip.id)`
abbrev pub FragmentKey : Type 0
FragmentKey = String × (String × String)

abbrev pub Domains : Type 0
Domains = Dict ℕ Counters

pub record Accumulator : Type 0 where
  pub interval_ms : ℕ
  pub settle_ms : ℕ
  pub next_window : Option ℕ
  pub closed_before : Option ℕ
  pub windows : Dict ℕ Domains
  pub pending_fragments : Dict FragmentKey ℕ
  pub gap_windows : List ℕ
  pub gap_started : Option ℕ
  pub late_packets : ℕ
  pub previous_late_packets : ℕ
  pub invalid_windows : Dict ℕ ℕ
  pub unassigned_invalid_rows : ℕ
  pub previous_unassigned_invalid_rows : ℕ
  pub previous_orphan_packets : ℕ
  pub capture_status : String
  pub capture_restarts : ℕ
  pub capture_invalid_rows : ℕ
  pub capture_gap_at_ms : ℕ
  pub orphan_fragment_packets : ℕ
  pub orphan_fragment_bytes : ℕ

-- `t // interval_ms * interval_ms`
abbrev pub window_of : ℕ → ℕ → ℕ
window_of interval t = t / interval * interval

-- The fields as `__init__` sets them.
unfoldable pub fresh : ℕ → Option ℕ → ℕ → Accumulator
fresh interval start_ms settle =
    let next : Option ℕ = elim start_ms [ none ↦ none | some t ↦ some (window_of interval t) ] in
    record {
      interval_ms = interval;
      settle_ms = settle;
      next_window = next;
      closed_before = next;
      windows = [];
      pending_fragments = [];
      gap_windows = [];
      gap_started = start_ms;
      late_packets = 0;
      previous_late_packets = 0;
      invalid_windows = [];
      unassigned_invalid_rows = 0;
      previous_unassigned_invalid_rows = 0;
      previous_orphan_packets = 0;
      capture_status = "starting";
      capture_restarts = 0;
      capture_invalid_rows = 0;
      capture_gap_at_ms = 0;
      orphan_fragment_packets = 0;
      orphan_fragment_bytes = 0;
    }

-- `__init__`; `none` is its `ValueError`
pub init : ℕ → Option ℕ → ℕ → Option Accumulator
unfolding fresh
init interval start_ms settle =
    if ltb interval 1 then none else some (fresh interval start_ms settle)

-- `range(first, now_ms + 1, interval_ms)`, with `first` the window that `start` falls in
abbrev gap_range : ℕ → ℕ → ℕ → List ℕ
gap_range interval start now =
    let first = window_of interval start in
    range_step ((now + 1 - first + (interval - 1)) / interval) first interval

pub set_capture_status : String → ℕ → Accumulator → Accumulator
set_capture_status status now a =
    let start : ℕ = elim a.gap_started [ none ↦ now | some t ↦ t ] in
    if str_eq status a.capture_status
    then a
    else if str_eq status "live"
    then record a {
      gap_windows = update (gap_range a.interval_ms start now) a.gap_windows;
      gap_started = none;
      capture_status = status;
      capture_gap_at_ms = now;
    }
    else record a { gap_started = some start; capture_status = status; capture_gap_at_ms = now }

unfoldable pub hold_fragment : FragmentKey → ℕ → Accumulator → Accumulator
hold_fragment key t a = record a {
  pending_fragments = insert key (get_default key t a.pending_fragments) a.pending_fragments;
}

unfoldable pub release_fragment : FragmentKey → Accumulator → Accumulator
release_fragment key a = record a { pending_fragments = erase key a.pending_fragments }

-- `self.closed_before is not None and window < self.closed_before`
abbrev pub is_late : ℕ → Option ℕ → Bool
is_late window none = false
is_late window (some closed) = ltb window closed

pub note_invalid_row : Option ℕ → Accumulator → Accumulator
note_invalid_row none a = record a {
  capture_invalid_rows = a.capture_invalid_rows + 1;
  unassigned_invalid_rows = a.unassigned_invalid_rows + 1;
}
note_invalid_row (some t) a =
    let window = window_of a.interval_ms t in
    if is_late window a.closed_before
    then record a {
      capture_invalid_rows = a.capture_invalid_rows + 1;
      late_packets = a.late_packets + 1;
    }
    else record a {
      capture_invalid_rows = a.capture_invalid_rows + 1;
      invalid_windows =
          insert window (get_default window 0 a.invalid_windows + 1) a.invalid_windows;
    }

-- The first window, moved back only as long as none is closed.
abbrev pub first_window : ℕ → Option ℕ → Option ℕ → Option ℕ
first_window window none closed = some window
first_window window (some next) none = if ltb window next then some window else some next
first_window window (some next) (some c) = some next

-- `self.windows.setdefault(window, {}).setdefault(domain_id, empty_counters())`, then the increments
pub count_in : Packet → ℕ → Dict ℕ Domains → Dict ℕ Domains
unfolding count_packet empty_counters
count_in p window ws =
    let domains = get_default window [] ws in
    let counters = get_default p.domain_id empty_counters domains in
    insert window (insert p.domain_id (count_packet p counters) domains) ws

unfoldable pub add_packet : Packet → Accumulator → Accumulator
unfolding count_in
add_packet p a =
    let window = window_of a.interval_ms p.timestamp_ms in
    let next = first_window window a.next_window a.closed_before in
    if is_late window a.closed_before
    then record a { next_window = next; late_packets = a.late_packets + p.packet_count }
    else record a { next_window = next; windows = count_in p window a.windows }

-- The two loops of `drain` and its `snapshot`.
pub merge_domains : Domains → Domains → Domains
unfolding add_counters empty_counters
merge_domains [] snapshot = snapshot
merge_domains ((domain, counters) ∷ rest) snapshot =
    merge_domains rest
      (insert domain (add_counters (get_default domain empty_counters snapshot) counters) snapshot)

pub merge_windows : Dict ℕ Domains → Domains → Domains
unfolding merge_domains
merge_windows [] snapshot = snapshot
merge_windows ((start, domains) ∷ rest) snapshot =
    merge_windows rest (merge_domains domains snapshot)

pub drain : Accumulator → Domains × Accumulator
unfolding merge_windows
drain a = (merge_windows a.windows [], record a { windows = [] })

-- What one closed window reports; `schema_version` and `timestamp_basis` are constants there.
pub record Report : Type 0 where
  pub domains : Domains
  pub capture_timestamp : ℕ
  pub capture_window_start_ms : ℕ
  pub interval_ms : ℕ
  pub reported_at_ms : ℕ
  pub finalization_delay_ms : ℕ
  pub capture_timing_valid : Bool
  pub capture_status : String
  pub capture_gap : Bool
  pub capture_restarts : ℕ
  pub capture_invalid_rows : ℕ
  pub capture_invalid_rows_interval : ℕ
  pub late_capture_packets : ℕ
  pub late_capture_packets_interval : ℕ
  pub orphan_fragment_packets : ℕ
  pub orphan_fragment_packets_interval : ℕ
  pub orphan_fragment_bytes : ℕ

-- `self.gap_started is not None and end > self.gap_started`
abbrev gap_open : Option ℕ → ℕ → Bool
gap_open none stop = false
gap_open (some t) stop = ltb t stop

-- One round of the loop: the report of the window at `start`.
pub report_of : ℕ → ℕ → ℕ → ℕ → ℕ → Accumulator → Report
report_of now late invalid orphans start a =
    let stop = start + a.interval_ms in
    record {
      domains = get_default start [] a.windows;
      capture_timestamp = stop;
      capture_window_start_ms = start;
      interval_ms = a.interval_ms;
      reported_at_ms = now;
      finalization_delay_ms = now - stop;
      capture_timing_valid = late == 0;
      capture_status = a.capture_status;
      capture_gap = member start a.gap_windows || gap_open a.gap_started stop;
      capture_restarts = a.capture_restarts;
      capture_invalid_rows = a.capture_invalid_rows;
      capture_invalid_rows_interval = invalid + get_default start 0 a.invalid_windows;
      late_capture_packets = a.late_packets;
      late_capture_packets_interval = late;
      orphan_fragment_packets = a.orphan_fragment_packets;
      orphan_fragment_packets_interval = orphans;
      orphan_fragment_bytes = a.orphan_fragment_bytes;
    }

-- One round of the loop: the object after it.
pub close_window : ℕ → Accumulator → Accumulator
close_window start a = record a {
  windows = erase start a.windows;
  invalid_windows = erase start a.invalid_windows;
  gap_windows = discard start a.gap_windows;
  next_window = some (start + a.interval_ms);
  closed_before = some (start + a.interval_ms);
}

-- `while self.next_window is not None and self.next_window + self.interval_ms <= cutoff`; each round
-- moves `next_window` up by at least 1, so a fuel of `cutoff + 1` is enough.
pub close_windows :
    ℕ → (ℕ → Accumulator → Report) → ℕ → Option ℕ → Accumulator → List Report × Accumulator
unfolding close_window
close_windows zero report cutoff next a = ([], a)
close_windows (suc f) report cutoff none a = ([], a)
close_windows (suc f) report cutoff (some start) a = elim (leb (start + a.interval_ms) cutoff) [
  | false ↦ ([], a)
  | true ↦
      let later =
        close_windows f report cutoff (some (start + a.interval_ms)) (close_window start a) in
      (report start a ∷ later.0, later.1)
]

-- `min([now_ms - self.settle_ms, *self.pending_fragments.values()])`
pub earliest : ℕ → Dict FragmentKey ℕ → ℕ
earliest t [] = t
earliest t ((key, held) ∷ d) = min held (earliest t d)

-- `if result:`
abbrev remember : List Report → Accumulator → Accumulator
remember [] a = a
remember (r ∷ rs) a = record a {
  previous_late_packets = a.late_packets;
  previous_unassigned_invalid_rows = a.unassigned_invalid_rows;
  previous_orphan_packets = a.orphan_fragment_packets;
}

-- `cutoff` of `drain_ready`
pub cutoff_at : ℕ → Accumulator → ℕ
unfolding earliest
cutoff_at now a = earliest (now - a.settle_ms) a.pending_fragments

-- The reports of one call share what `late`, `invalid` and `orphans` count since the last one.
pub reporter : ℕ → Accumulator → ℕ → Accumulator → Report
unfolding report_of
reporter now a =
    let late = a.late_packets - a.previous_late_packets in
    let invalid = a.unassigned_invalid_rows - a.previous_unassigned_invalid_rows in
    let orphans = a.orphan_fragment_packets - a.previous_orphan_packets in
    report_of now late invalid orphans

pub drain_ready : ℕ → Accumulator → List Report × Accumulator
unfolding cutoff_at reporter
drain_ready now a =
    let cutoff = cutoff_at now a in
    let (reports, a') = close_windows (suc cutoff) (reporter now a) cutoff a.next_window a in
    (reports, remember reports a')
