-- ===== src/Harness/Audit/Expected.antt =====
-- The topics of the expected, the missing, the duplicated and the unexpected deliveries in `analyze` of
-- delivery_audit_report.py.
use act_sim_scope_infra.Common.{
  ℕ, ◌+◌, ◌≡◌, zero, suc, String, List, [], ◌∷◌, ◌++◌, true, Option, none, some, keep, All, Dict,
  lookup, contains, erase, get_default, string_key, nat_key, pair_key, insert, arith, inl, inr,
  Bool-cases,
}
use act_sim_scope_infra.Common.Counter.{tally}
use act_sim_scope_infra.Harness.Audit.{Event, Expectation, in_names, expected_receivers}
use act_sim_scope_infra.Harness.Audit.Deliveries.{
  DeliveryKey, Expectations, Expected, Matched, key_of, expected_key, keys_of, for_receivers,
  expect_sent, expect_all, match_all, note_count, of_kind,
}

module _ (expectations : Expectations) where
  abbrev pub IsExpected : String → Type 0
  IsExpected topic = contains topic expectations ≡ true

  abbrev pub IsKeyExpected : DeliveryKey → Type 0
  IsKeyExpected key = IsExpected key.0

  abbrev pub IsItemExpected : Event × String → Type 0
  IsItemExpected item = IsExpected item.0.topic

  abbrev pub IsCountExpected : DeliveryKey × ℕ → Type 0
  IsCountExpected item = IsExpected item.0.0

  of_kind-IsExpected :
      (kind : String) (event : Event)
      → of_kind kind expectations event ≡ true
      → IsExpected event.topic
  of_kind-IsExpected kind event h = ground (arith, h)

  pub keep-IsExpected :
      (kind : String) (events : List Event)
      → All (λ event. IsExpected event.topic) (keep (of_kind kind expectations) events)
  keep-IsExpected kind [] = tt
  keep-IsExpected kind (event ∷ events) = elim (Bool-cases (of_kind kind expectations event)) [
    | inl b ↦ rw b (of_kind-IsExpected kind event b, keep-IsExpected kind events)
    | inr b ↦ rw b (keep-IsExpected kind events)
  ]

  for_receivers-IsExpected :
      (sent : Event) (receivers : List String) (rest : List (Event × String))
      → IsExpected sent.topic
      → All IsItemExpected rest
      → All IsItemExpected (for_receivers sent receivers ++ rest)
  unfolding for_receivers
  for_receivers-IsExpected sent [] rest h hs = hs
  for_receivers-IsExpected sent (r ∷ rs) rest h hs = (h, for_receivers-IsExpected sent rs rest h hs)

  expect_sent-IsExpected :
      (o : Option Expectation) (sent : Event) (r : Expected)
      → IsExpected sent.topic
      → All IsItemExpected r.expected
      → All IsItemExpected (expect_sent o sent r).expected
  expect_sent-IsExpected none sent r h hs = hs
  expect_sent-IsExpected (some expectation) sent r h hs =
      elim (Bool-cases (in_names sent.source_node expectation.source_nodes)) [
        | inl b ↦
            rw b
              (for_receivers-IsExpected sent (expected_receivers sent expectation) r.expected h hs)
        | inr b ↦ rw b hs
      ]

  pub expect_all-IsExpected :
      (sends : List Event)
      → All (λ event. IsExpected event.topic) sends
      → All IsItemExpected (expect_all expectations sends).expected
  unfolding expect_all
  expect_all-IsExpected [] h = tt
  expect_all-IsExpected (sent ∷ sends) (h, hs) =
      expect_sent-IsExpected (lookup sent.topic expectations) sent (expect_all expectations sends) h
        (expect_all-IsExpected sends hs)

  note_count-missing :
      (key : DeliveryKey) (n : ℕ) (r : Matched)
      → IsKeyExpected key
      → All IsKeyExpected r.missing
      → All IsKeyExpected (note_count key n r).missing
  note_count-missing key zero r h hs = (h, hs)
  note_count-missing key (suc zero) r h hs = hs
  note_count-missing key (suc (suc n)) r h hs = hs

  note_count-duplicates :
      (key : DeliveryKey) (n : ℕ) (r : Matched)
      → IsKeyExpected key
      → All IsCountExpected r.duplicates
      → All IsCountExpected (note_count key n r).duplicates
  note_count-duplicates key zero r h hs = hs
  note_count-duplicates key (suc zero) r h hs = hs
  note_count-duplicates key (suc (suc n)) r h hs = (h, hs)

  note_count-left :
      (key : DeliveryKey) (n : ℕ) (r : Matched)
      → All IsCountExpected r.left
      → All IsCountExpected (note_count key n r).left
  note_count-left key zero r hs = hs
  note_count-left key (suc zero) r hs = hs
  note_count-left key (suc (suc n)) r hs = hs

  erase-IsExpected :
      (key : DeliveryKey) (d : Dict DeliveryKey ℕ)
      → All IsCountExpected d
      → All IsCountExpected (erase key d)
  erase-IsExpected key [] h = tt
  erase-IsExpected key ((j, n) ∷ d) (h, hs) = ground (arith, h, hs, erase-IsExpected key d hs)

  insert-IsExpected :
      (key : DeliveryKey) (n : ℕ) (d : Dict DeliveryKey ℕ)
      → IsKeyExpected key
      → All IsCountExpected d
      → All IsCountExpected (insert key n d)
  insert-IsExpected key n [] k h = (k, tt)
  insert-IsExpected key n ((j, m) ∷ d) k (h, hs) =
      ground (arith, h, hs, insert-IsExpected key n d k hs)

  pub tally-IsExpected :
      (events : List Event) (d : Dict DeliveryKey ℕ)
      → All (λ event. IsExpected event.topic) events
      → All IsCountExpected d
      → All IsCountExpected (tally (keys_of events) d)
  unfolding keys_of
  tally-IsExpected [] d h hs = hs
  tally-IsExpected (event ∷ events) d (h, hs) l =
      let key = key_of event in
      tally-IsExpected events (insert key (get_default key 0 d + 1) d) hs
        (insert-IsExpected key (get_default key 0 d + 1) d h l)

  pub match_all-missing :
      (items : List (Event × String)) (d : Dict DeliveryKey ℕ)
      → All IsItemExpected items
      → All IsKeyExpected (match_all items d).missing
  unfolding match_all
  match_all-missing [] d h = tt
  match_all-missing (item ∷ items) d (h, hs) =
      let key = expected_key item in
      note_count-missing key (get_default key 0 d) (match_all items (erase key d)) h
        (match_all-missing items (erase key d) hs)

  pub match_all-duplicates :
      (items : List (Event × String)) (d : Dict DeliveryKey ℕ)
      → All IsItemExpected items
      → All IsCountExpected (match_all items d).duplicates
  unfolding match_all
  match_all-duplicates [] d h = tt
  match_all-duplicates (item ∷ items) d (h, hs) =
      let key = expected_key item in
      note_count-duplicates key (get_default key 0 d) (match_all items (erase key d)) h
        (match_all-duplicates items (erase key d) hs)

  pub match_all-left :
      (items : List (Event × String)) (d : Dict DeliveryKey ℕ)
      → All IsCountExpected d
      → All IsCountExpected (match_all items d).left
  unfolding match_all
  match_all-left [] d h = h
  match_all-left (item ∷ items) d h =
      let key = expected_key item in
      note_count-left key (get_default key 0 d) (match_all items (erase key d))
        (match_all-left items (erase key d) (erase-IsExpected key d h))
