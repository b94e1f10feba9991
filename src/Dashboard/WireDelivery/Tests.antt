-- ===== src/Dashboard/WireDelivery/Tests.antt =====
-- `WireDelivery` on two small files, and the theorems at them.
use act_sim_scope_infra.Common.{
  ℕ, ◌*◌, ◌≡◌, refl, String, List, [], ◌∷◌, ◌++◌, none, some, All, string_key, nat_key, pair_key,
}
use act_sim_scope_infra.Dashboard.Json.{Object, integer, string}
use act_sim_scope_infra.Dashboard.WireDelivery.{
  Kind, Identity, Observation, Parsed, WireDelivery, observed, fresh, poll, parse, second,
}
use act_sim_scope_infra.Wire.Endpoints.{Reliability}
use act_sim_scope_infra.Dashboard.WireDelivery.Earliest.{
  version_at, earlier_of, earliest, store_all, store_all-earliest, store_all-order,
}
use act_sim_scope_infra.Dashboard.WireDelivery.Rows.{in_window, tally, snapshot}
use act_sim_scope_infra.Dashboard.WireDelivery.Rows.Balance.{
  IsBalanced, all_sent, snapshot-IsBalanced,
}

abbrev guid : String
guid = "0102030405060708090a0b0c00000102"

-- An event of the sample 7 from alpha to bravo.
abbrev event : String → String → ℕ → Object
event kind node t =
    ("scope", string "wan_wire")
    ∷ ("schema_version", integer 1)
    ∷ ("run_id", string "run-1")
    ∷ ("node", string node)
    ∷ ("event", string kind)
    ∷ ("timestamp_ns", integer t)
    ∷ ("domain_id", integer 200)
    ∷ ("writer_guid", string guid)
    ∷ ("sequence", integer 7)
    ∷ ("source", string "alpha")
    ∷ ("recipient", string "bravo")
    ∷ ("source_ip", string "10.0.0.1")
    ∷ ("destination_ip", string "10.0.0.2")
    ∷ ("topic", string "Track")
    ∷ ("reliability", string "reliable")
    ∷ []

abbrev key : Identity
key = (200, (guid, (7, ("10.0.0.1", "10.0.0.2"))))

abbrev seen_at : ℕ → Observation
seen_at t = record {
  timestamp = t;
  completed = t;
  domain = 200;
  writer_guid = guid;
  source = "alpha";
  recipient = "bravo";
  topic = some "Track";
  reliability = Reliability.reliable;
}

event_parsed :
    parse (event "sent" "alpha" (100 * second))
    ≡ some (observed Kind.sent key (seen_at (100 * second)))
unfolding parse
event_parsed = refl

-- A sample that is said to be sent by its recipient is refused.
event_refused : parse (event "sent" "bravo" (100 * second)) ≡ none
unfolding parse
event_refused = refl

abbrev polled : WireDelivery
unfolding poll
polled =
    poll (110 * second) "run-1"
      (some (event "sent" "alpha" (100 * second))
        ∷ some (event "received" "bravo" (101 * second))
        ∷ some (event "sent" "bravo" (102 * second))
        ∷ none
        ∷ [])
      (fresh none)

polled_invalid : polled.invalid_records ≡ 2
unfolding polled
polled_invalid = refl

polled_sent : all_sent (snapshot (110 * second) 30000 polled) ≡ 1
unfolding polled snapshot
polled_sent = refl

snapshot-IsBalanced_example :
    All IsBalanced (snapshot (110 * second) 30000 polled)
    × (all_sent (snapshot (110 * second) 30000 polled)
        ≡ tally (λ m. in_window (110 * second) 30000 m.1) polled.sent)
snapshot-IsBalanced_example = snapshot-IsBalanced (110 * second) 30000 polled

abbrev first_file : List Parsed
first_file = observed Kind.sent key (seen_at 500) ∷ observed Kind.sent key (seen_at 300) ∷ []

abbrev second_file : List Parsed
second_file = observed Kind.sent key (seen_at 400) ∷ []

store_all-earliest_example :
    version_at Kind.sent key (store_all first_file (fresh none))
    ≡ earlier_of (version_at Kind.sent key (fresh none)) (earliest Kind.sent key first_file)
store_all-earliest_example = store_all-earliest Kind.sent key first_file (fresh none)

store_all-order_example :
    version_at Kind.sent key (store_all (first_file ++ second_file) (fresh none))
    ≡ version_at Kind.sent key (store_all (second_file ++ first_file) (fresh none))
store_all-order_example = store_all-order Kind.sent key first_file second_file (fresh none)
