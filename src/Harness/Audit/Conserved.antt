-- ===== src/Harness/Audit/Conserved.antt =====
-- How many received events `analyze` of delivery_audit_report.py accounts for, and where.
use act_sim_scope_infra.Common.{
  ℕ, ◌+◌, ◌≡◌, refl, zero, suc, String, List, [], ◌∷◌, Dict, erase, get_default, string_key,
  nat_key, pair_key, length, arith, sum_values, sum_values-erase,
}
use act_sim_scope_infra.Common.Counter.{tally, sum-tally}
use act_sim_scope_infra.Common.Sort.{sum_of, sum_of-sorted}
use act_sim_scope_infra.Harness.Audit.{Event}
use act_sim_scope_infra.Harness.Audit.Deliveries.{
  DeliveryKey, Expectations, Matched, expected_key, keys_of, received_keys, receives_of, sends_of,
  expect_all, match_all, note_count,
}
use act_sim_scope_infra.Harness.Audit.Verdicts.{findings_of, key_lt}

abbrev pub counts : List (DeliveryKey × ℕ) → ℕ
counts = sum_of (λ item. item.1)

counts-sum_values : (d : Dict DeliveryKey ℕ) → counts d ≡ sum_values (λ n. n) d
counts-sum_values [] = refl
counts-sum_values ((k, n) ∷ d) = omega (arith, counts-sum_values d)

length-keys_of : (events : List Event) → length (keys_of events) ≡ length events
unfolding keys_of
length-keys_of [] = refl
length-keys_of (event ∷ events) = omega (arith, length-keys_of events)

note_count-counts :
    (key : DeliveryKey) (n total items : ℕ) (r : Matched)
    → total + length r.missing + length r.duplicates ≡ items + counts r.duplicates + counts r.left
    → n + total + length (note_count key n r).missing + length (note_count key n r).duplicates
      ≡ suc items + counts (note_count key n r).duplicates + counts (note_count key n r).left
note_count-counts key zero total items r h = omega (arith, h)
note_count-counts key (suc zero) total items r h = omega (arith, h)
note_count-counts key (suc (suc n)) total items r h = omega (arith, h)

erase-counts :
    (key : DeliveryKey) (d : Dict DeliveryKey ℕ)
    → get_default key 0 d + counts (erase key d) ≡ counts d
erase-counts key d =
    ground
      (arith, sum_values-erase (λ n. n) key d, counts-sum_values d, counts-sum_values (erase key d))

match_all-counts :
    (items : List (Event × String)) (d : Dict DeliveryKey ℕ)
    → counts d + length (match_all items d).missing + length (match_all items d).duplicates
      ≡ length items + counts (match_all items d).duplicates + counts (match_all items d).left
unfolding match_all
match_all-counts [] d = omega arith
match_all-counts (item ∷ items) d =
    let key = expected_key item in
    let n = get_default key 0 d in
    omega (
      arith,
      erase-counts key d,
      note_count-counts key n (counts (erase key d)) (length items) (match_all items (erase key d))
          (match_all-counts items (erase key d)),
    )

received_keys-counts : (receives : List Event) → counts (received_keys receives) ≡ length receives
unfolding received_keys
received_keys-counts receives = omega (
  arith,
  counts-sum_values (tally (keys_of receives) []),
  sum-tally (keys_of receives) [],
  length-keys_of receives,
)

-- Every received event of an expected topic is accounted for once: the deliveries expected that are
-- neither missing nor duplicated, with the counts of the duplicated and of the unexpected ones, are
-- as many as the events received.
pub findings_of-counts :
    (expectations : Expectations) (events : List Event)
    → length (receives_of expectations events)
        + length (findings_of expectations events).missing
        + length (findings_of expectations events).duplicates
      ≡ length (findings_of expectations events).expected
        + counts (findings_of expectations events).duplicates
        + counts (findings_of expectations events).unexpected
unfolding findings_of
findings_of-counts expectations events =
    let items = (expect_all expectations (sends_of expectations events)).expected in
    let d = received_keys (receives_of expectations events) in
    omega (
      arith,
      match_all-counts items d,
      received_keys-counts (receives_of expectations events),
      sum_of-sorted key_lt (λ item. item.1) (match_all items d).left,
    )
