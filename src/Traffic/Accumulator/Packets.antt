-- ===== src/Traffic/Accumulator/Packets.antt =====
-- The frames and bytes that `TrafficAccumulator` holds, has reported and has called late.
use act_sim_scope_infra.Common.{
  ℕ, zero, suc, ◌+◌, ◌≡◌, refl, ap, true, false, Option, none, some, List, [], ◌∷◌, arith, Dict,
  insert, get_default, lookup, nat_key, leb, inl, inr, Bool-cases, sum_values, measure,
  sum_values-insert, sum_values-erase,
}
use act_sim_scope_infra.Traffic.Counters.{
  Counters, Packet, count_packet, add_counters, empty_counters, total,
}
use act_sim_scope_infra.Traffic.Accumulator.{
  Accumulator, Domains, window_of, is_late, count_in, add_packet, close_window, Report, reporter,
  cutoff_at, drain, close_windows, drain_ready, merge_domains, merge_windows, remember,
}

-- A unit, packets or bytes, as the total of one domain's counters and the weight of a frame.
pub record IsMeasure (of : Counters → ℕ) (weight : Packet → ℕ) : Type 0 where
  pub at_empty : of empty_counters ≡ 0
  pub at_packet : (p : Packet) (s : Counters) → of (count_packet p s) ≡ of s + weight p
  pub at_sum : (a b : Counters) → of (add_counters a b) ≡ of a + of b

abbrev pub packets : Counters → ℕ
packets s = (s total).packets

abbrev pub bytes : Counters → ℕ
bytes s = (s total).bytes

pub packets-IsMeasure : IsMeasure packets (λ p. p.packet_count)
unfolding empty_counters count_packet add_counters
packets-IsMeasure = record {
  at_empty = refl;
  at_packet = λ p s. ground arith;
  at_sum = λ a b. refl;
}

pub bytes-IsMeasure : IsMeasure bytes (λ p. p.frame_len)
unfolding empty_counters count_packet add_counters
bytes-IsMeasure = record { at_empty = refl; at_packet = λ p s. ground arith; at_sum = λ a b. refl }

module _ (of : Counters → ℕ) where
  abbrev pub in_domains : Domains → ℕ
  in_domains d = sum_values of d

  -- What the open windows hold.
  abbrev pub held : Accumulator → ℕ
  held a = sum_values in_domains a.windows

  abbrev pub reported : List Report → ℕ
  reported [] = 0
  reported (r ∷ rs) = in_domains r.domains + reported rs

reported_domains :
    (now : ℕ) (a0 : Accumulator) (start : ℕ) (a : Accumulator)
    → (reporter now a0 start a).domains ≡ get_default start [] a.windows
unfolding reporter
reported_domains now a0 start a = refl

module _ (of : Counters → ℕ) (weight : Packet → ℕ) (u : IsMeasure of weight) where
  default_domains :
      (k : ℕ) (ws : Dict ℕ Domains)
      → in_domains of (get_default k [] ws) ≡ measure (in_domains of) (lookup k ws)
  default_domains k ws = ground arith

  default_counters :
      (k : ℕ) (d : Domains) → of (get_default k empty_counters d) ≡ measure of (lookup k d)
  default_counters k d = ground (arith, u.at_empty)

  held-count_in :
      (p : Packet) (w : ℕ) (ws : Dict ℕ Domains)
      → sum_values (in_domains of) (count_in p w ws) ≡ sum_values (in_domains of) ws + weight p
  unfolding count_in
  held-count_in p w ws =
      let domains = get_default w [] ws in
      let counters = get_default p.domain_id empty_counters domains in
      omega (
        arith,
        default_domains w ws,
        default_counters p.domain_id domains,
        u.at_packet p counters,
        sum_values-insert of p.domain_id (count_packet p counters) domains,
        sum_values-insert (in_domains of) w (insert p.domain_id (count_packet p counters) domains)
            ws,
      )

  held-close_window :
      (start : ℕ) (a : Accumulator)
      → held of (close_window start a) + in_domains of (get_default start [] a.windows) ≡ held of a
  unfolding close_window
  held-close_window start a =
      omega
        (arith, default_domains start a.windows, sum_values-erase (in_domains of) start a.windows)

  held-close_windows :
      (now : ℕ) (a0 : Accumulator) (f cutoff : ℕ) (next : Option ℕ) (a : Accumulator)
      → let (rs, a') = close_windows f (reporter now a0) cutoff next a in
        held of a' + reported of rs ≡ held of a
  unfolding close_windows
  held-close_windows now a0 zero cutoff next a = omega arith
  held-close_windows now a0 (suc f) cutoff none a = omega arith
  held-close_windows now a0 (suc f) cutoff (some start) a =
      elim (Bool-cases (leb (start + a.interval_ms) cutoff)) [
        | inr c ↦ rw (c, close_windows) (omega arith)
        | inl c ↦
            rw (c, close_windows)
              (omega (
                arith,
                held-close_windows now a0 f cutoff (some (start + a.interval_ms))
                    (close_window start a),
                held-close_window start a,
                ap (in_domains of) (reported_domains now a0 start a),
              ))
      ]

  held-remember : (rs : List Report) (a : Accumulator) → held of (remember rs a) ≡ held of a
  held-remember [] a = refl
  held-remember (r ∷ rs) a = refl

  pub held-drain_ready :
      (now : ℕ) (a : Accumulator)
      → held of (drain_ready now a).1 + reported of (drain_ready now a).0 ≡ held of a
  unfolding drain_ready
  held-drain_ready now a =
      rw held-remember
        (held-close_windows now a (suc (cutoff_at now a)) (cutoff_at now a) a.next_window a)

  pub held-add_packet :
      (p : Packet) (a : Accumulator)
      → is_late (window_of a.interval_ms p.timestamp_ms) a.closed_before ≡ false
      → held of (add_packet p a) ≡ held of a + weight p
  unfolding add_packet
  held-add_packet p a on_time =
      rw on_time (held-count_in p (window_of a.interval_ms p.timestamp_ms) a.windows)

  pub held-add_packet_late :
      (p : Packet) (a : Accumulator)
      → is_late (window_of a.interval_ms p.timestamp_ms) a.closed_before ≡ true
      → held of (add_packet p a) ≡ held of a
  unfolding add_packet
  held-add_packet_late p a late = rw late refl

  in_domains-merge :
      (d snapshot : Domains)
      → in_domains of (merge_domains d snapshot) ≡ in_domains of snapshot + in_domains of d
  unfolding merge_domains
  in_domains-merge [] snapshot = omega arith
  in_domains-merge ((k, c) ∷ d) snapshot =
      let old = get_default k empty_counters snapshot in
      omega (
        arith,
        in_domains-merge d (insert k (add_counters old c) snapshot),
        sum_values-insert of k (add_counters old c) snapshot,
        default_counters k snapshot,
        u.at_sum old c,
      )

  in_domains-merge_windows :
      (ws : Dict ℕ Domains) (snapshot : Domains)
      → in_domains of (merge_windows ws snapshot)
        ≡ in_domains of snapshot + sum_values (in_domains of) ws
  unfolding merge_windows
  in_domains-merge_windows [] snapshot = omega arith
  in_domains-merge_windows ((w, d) ∷ ws) snapshot =
      omega
        (arith, in_domains-merge_windows ws (merge_domains d snapshot), in_domains-merge d snapshot)

  -- `drain` returns all that the windows held, and leaves nothing in them.
  pub drain_all :
      (a : Accumulator) → (in_domains of (drain a).0 ≡ held of a) × (held of (drain a).1 ≡ 0)
  unfolding drain
  drain_all a = (omega (arith, in_domains-merge_windows a.windows []), refl)
