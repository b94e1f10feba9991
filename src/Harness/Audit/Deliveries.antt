-- ===== src/Harness/Audit/Deliveries.antt =====
-- The first part of `analyze` of delivery_audit_report.py: what was sent, what was received, and how the
-- expected deliveries are matched with the received ones.
use act_sim_scope_infra.Common.{
  ℕ, zero, suc, String, List, [], ◌∷◌, Bool, true, false, ◌&&◌, ◌++◌, Option, none, some,
  if◌then◌else◌, str_eq, keep, Dict, lookup, contains, erase, get_default, string_key, nat_key,
  pair_key,
}
use act_sim_scope_infra.Common.Counter.{tally}
use act_sim_scope_infra.Harness.Audit.{
  Event, Expectation, EvidenceError, unexpected_source, in_names, expected_receivers,
}

-- `(event["topic"], event["source_node"], event["sequence"], event["node"])`
abbrev pub DeliveryKey : Type 0
DeliveryKey = String × (String × (ℕ × String))

abbrev pub Expectations : Type 0
Expectations = Dict String Expectation

abbrev pub of_kind : String → Expectations → Event → Bool
of_kind kind expectations event = str_eq event.event kind && contains event.topic expectations

unfoldable pub sends_of : Expectations → List Event → List Event
sends_of expectations = keep (of_kind "sent" expectations)

unfoldable pub receives_of : Expectations → List Event → List Event
receives_of expectations = keep (of_kind "received" expectations)

abbrev pub key_of : Event → DeliveryKey
key_of event = (event.topic, (event.source_node, (event.sequence, event.node)))

abbrev pub expected_key : Event × String → DeliveryKey
expected_key (sent, receiver) = (sent.topic, (sent.source_node, (sent.sequence, receiver)))

unfoldable pub keys_of : List Event → List DeliveryKey
keys_of [] = []
keys_of (event ∷ events) = key_of event ∷ keys_of events

unfoldable pub received_keys : List Event → Dict DeliveryKey ℕ
received_keys receives = tally (keys_of receives) []

pub record Expected : Type 0 where
  pub expected : List (Event × String)
  pub not_expected : List Event
  pub errors : List EvidenceError

unfoldable pub for_receivers : Event → List String → List (Event × String)
for_receivers sent [] = []
for_receivers sent (receiver ∷ receivers) = (sent, receiver) ∷ for_receivers sent receivers

abbrev pub is_nil {ℓ} : {A : Type ℓ} → List A → Bool
is_nil [] = true
is_nil (x ∷ xs) = false

-- A topic outside the expectations does not come: `sends` are those with one.
abbrev pub expect_sent : Option Expectation → Event → Expected → Expected
expect_sent none sent r = r
expect_sent (some expectation) sent r =
    let receivers = expected_receivers sent expectation in
    if in_names sent.source_node expectation.source_nodes
    then record {
      expected = for_receivers sent receivers ++ r.expected;
      not_expected = if is_nil receivers then sent ∷ r.not_expected else r.not_expected;
      errors = r.errors;
    }
    else record r { errors = unexpected_source sent.source_node sent.topic ∷ r.errors }

unfoldable pub expect_all : Expectations → List Event → Expected
expect_all expectations [] = record { expected = []; not_expected = []; errors = [] }
expect_all expectations (sent ∷ sends) =
    expect_sent (lookup sent.topic expectations) sent (expect_all expectations sends)

pub record Matched : Type 0 where
  pub missing : List DeliveryKey
  pub duplicates : List (DeliveryKey × ℕ)
  pub left : Dict DeliveryKey ℕ

-- `count == 0`, `count > 1`, or neither
abbrev pub note_count : DeliveryKey → ℕ → Matched → Matched
note_count key zero r = record r { missing = key ∷ r.missing }
note_count key (suc zero) r = r
note_count key (suc (suc n)) r = record r { duplicates = (key, suc (suc n)) ∷ r.duplicates }

unfoldable pub match_all : List (Event × String) → Dict DeliveryKey ℕ → Matched
match_all [] d = record { missing = []; duplicates = []; left = d }
match_all (item ∷ items) d =
    let key = expected_key item in
    note_count key (get_default key 0 d) (match_all items (erase key d))
