-- ===== src/Harness/Audit/Exact.antt =====
-- The matching of `analyze` in delivery_audit_report.py against the numbers of times that each delivery
-- was expected and received.
use act_sim_scope_infra.Common.{
  ℕ, ◌+◌, ◌≤◌, ◌≡◌, refl, zero, suc, String, List, [], ◌∷◌, true, Dict, erase, get_default,
  string_key, nat_key, pair_key, Unique, erase-Unique, arith,
}
use act_sim_scope_infra.Common.Counter.{occurrences, tally-Unique, erase-single}
use act_sim_scope_infra.Harness.Audit.{Event}
use act_sim_scope_infra.Harness.Audit.Deliveries.{
  DeliveryKey, Matched, expected_key, keys_of, received_keys, match_all, note_count, is_nil,
}

abbrev pub expected_keys : List (Event × String) → List DeliveryKey
expected_keys [] = []
expected_keys (item ∷ items) = expected_key item ∷ expected_keys items

pub received_keys-Unique : (receives : List Event) → Unique (received_keys receives)
unfolding received_keys
received_keys-Unique receives = tally-Unique (keys_of receives) [] tt

-- A single count leaves what is missing or duplicated as it is.
note_count-single :
    (key : DeliveryKey) (n : ℕ) (r : Matched)
    → is_nil (note_count key n r).missing ≡ true
    → is_nil (note_count key n r).duplicates ≡ true
    → (n ≡ 1) × (is_nil r.missing ≡ true) × (is_nil r.duplicates ≡ true)
note_count-single key zero r m d = absurd (ground (arith, m))
note_count-single key (suc zero) r m d = (refl, m, d)
note_count-single key (suc (suc n)) r m d = absurd (ground (arith, d))

note_count-left : (key : DeliveryKey) (n : ℕ) (r : Matched) → (note_count key n r).left ≡ r.left
note_count-left key zero r = refl
note_count-left key (suc zero) r = refl
note_count-left key (suc (suc n)) r = refl

-- When nothing is missing and nothing duplicated, each key was received as often as it was expected, and
-- what is left over.
pub match_all-exact :
    (items : List (Event × String)) (d : Dict DeliveryKey ℕ) (k : DeliveryKey)
    → Unique d
    → is_nil (match_all items d).missing ≡ true
    → is_nil (match_all items d).duplicates ≡ true
    → (get_default k 0 d
        ≡ occurrences k (expected_keys items) + get_default k 0 (match_all items d).left)
      × (occurrences k (expected_keys items) ≤ 1)
unfolding match_all
match_all-exact [] d k u m s = (omega arith, omega arith)
match_all-exact (item ∷ items) d k u m s =
    let key = expected_key item in
    let rest = match_all items (erase key d) in
    let single = note_count-single key (get_default key 0 d) rest m s in
    let later = match_all-exact items (erase key d) k (erase-Unique key d u) single.1 single.2 in
    rw (note_count-left key (get_default key 0 d) rest) (
      erase-single key k d (occurrences k (expected_keys items)) (get_default k 0 rest.left) u
        single.0 later.0 later.1)
