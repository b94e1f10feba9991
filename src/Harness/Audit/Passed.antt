-- ===== src/Harness/Audit/Passed.antt =====
-- What a report of delivery_audit_report.py with the verdict `pass` says of the deliveries.
use act_sim_scope_infra.Common.{
  ℕ, ◌-◌, ◌*◌, ◌≤◌, ◌≡◌, refl, String, List, [], ◌∷◌, ◌++◌, Bool, true, false, not, ◌&&◌, ◌||◌,
  if◌then◌else◌, str_eq, eq_iff, ltb, any, keep, length, All, Dict, contains, get_default,
  string_key, nat_key, pair_key, arith, inl, inr, Bool-cases, ap, sym, ◌∙◌, subst,
}
use act_sim_scope_infra.Common.Sort.{sorted, any-sorted, length-keep-sorted}
use act_sim_scope_infra.Common.Counter.{occurrences, get_default-tally}
use act_sim_scope_infra.Harness.Audit.{Event, Requirement, Manifest, EvidenceError}
use act_sim_scope_infra.Harness.Audit.Deliveries.{
  DeliveryKey, Expectations, keys_of, received_keys, receives_of, sends_of, expect_all, match_all,
  is_nil,
}
use act_sim_scope_infra.Harness.Audit.Exact.{expected_keys, received_keys-Unique, match_all-exact}
use act_sim_scope_infra.Harness.Audit.Expected.{
  IsExpected, keep-IsExpected, expect_all-IsExpected, tally-IsExpected, match_all-missing,
  match_all-duplicates, match_all-left,
}
use act_sim_scope_infra.Harness.Audit.Verdicts.{
  pass, fail, inconclusive, Findings, topic_verdict, summary_of, summaries, overall, findings_of,
  analyze, requirement_lt, key_lt, is_fail, is_inconclusive, sent_on, expected_on, key_on,
  counted_on,
}

-- A list is empty when it has nothing on any expected topic and all of it is on one.
empty_of_topics :
    {A : Type 0} (expectations : Expectations) (topic_of : A → String) (xs : List A)
    → All (λ x. IsExpected expectations (topic_of x)) xs
    → ((topic : String)
        → IsExpected expectations topic
        → length (keep (λ x. str_eq (topic_of x) topic) xs) ≡ 0)
    → is_nil xs ≡ true
empty_of_topics expectations topic_of [] h e = refl
empty_of_topics expectations topic_of (x ∷ xs) (h, hs) e =
    absurd (ground (arith, e (topic_of x) h, eq_iff (topic_of x) (topic_of x)))

abbrev Quiet : Findings → String → Type 0
Quiet f topic =
    (length (keep (key_on topic) f.missing) ≡ 0)
    × (length (keep (counted_on topic) f.duplicates) ≡ 0)
    × (length (keep (counted_on topic) f.unexpected) ≡ 0)

verdict-parts :
    (a b : Bool)
    → is_fail (if a then inconclusive else if b then fail else pass) ≡ false
    → is_inconclusive (if a then inconclusive else if b then fail else pass) ≡ false
    → b ≡ false
verdict-parts true b f i = absurd (ground (arith, i))
verdict-parts false true f i = absurd (ground (arith, f))
verdict-parts false false f i = refl

topic_verdict-pass :
    (e : Bool) (requirement : Requirement) (sent expected missing duplicates unexpected : ℕ)
    → is_fail (topic_verdict e requirement sent expected missing duplicates unexpected) ≡ false
    → is_inconclusive (topic_verdict e requirement sent expected missing duplicates unexpected)
      ≡ false
    → (missing ≡ 0) × (duplicates ≡ 0) × (unexpected ≡ 0)
unfolding topic_verdict
topic_verdict-pass e requirement sent expected missing duplicates unexpected f i =
    let none_of =
      verdict-parts (e || ltb sent requirement.minimum_sent)
        (ltb 0 missing
          || ltb 0 duplicates
          || ltb 0 unexpected
          || ltb 0 expected
            && ltb (100 * (expected - missing))
                (requirement.completion_threshold_percent * expected))
        f i in
    (ground (arith, none_of), ground (arith, none_of), ground (arith, none_of))

or-false : (a b : Bool) → (a || b) ≡ false → (a ≡ false) × (b ≡ false)
or-false a b h = ground (arith, h)

summary_of-Quiet :
    (e : Bool) (f : Findings) (topic : String) (requirement : Requirement)
    → is_fail (summary_of e f topic requirement).verdict ≡ false
    → is_inconclusive (summary_of e f topic requirement).verdict ≡ false
    → Quiet f topic
unfolding summary_of
summary_of-Quiet e f topic requirement a b =
    topic_verdict-pass e requirement (length (keep (sent_on topic) f.sends))
      (length (keep (expected_on topic) f.expected)) (length (keep (key_on topic) f.missing))
      (length (keep (counted_on topic) f.duplicates))
      (length (keep (counted_on topic) f.unexpected)) a b

summaries-Quiet :
    (e : Bool) (f : Findings) (rs : Dict String Requirement) (topic : String)
    → any (λ t. is_fail t.1.verdict) (summaries e f rs) ≡ false
    → any (λ t. is_inconclusive t.1.verdict) (summaries e f rs) ≡ false
    → any (λ r. str_eq r.0 topic) rs ≡ true
    → Quiet f topic
unfolding summaries
summaries-Quiet e f [] topic a b h = absurd (ground (arith, h))
summaries-Quiet e f ((t, requirement) ∷ rs) topic a b h =
    let s = summary_of e f t requirement in
    let a' = or-false (is_fail s.verdict) (any (λ t. is_fail t.1.verdict) (summaries e f rs)) a in
    let b' =
      or-false (is_inconclusive s.verdict)
        (any (λ t. is_inconclusive t.1.verdict) (summaries e f rs)) b in
    elim (Bool-cases (str_eq t topic)) [
      | inl n ↦
          subst (Quiet f) ((eq_iff t topic).0 n) (summary_of-Quiet e f t requirement a'.0 b'.0)
      | inr n ↦ summaries-Quiet e f rs topic a'.1 b'.1 (ground (arith, h, n))
    ]

contains-any :
    (topic : String) (rs : Dict String Requirement)
    → any (λ r. str_eq r.0 topic) rs ≡ contains topic rs
contains-any topic [] = refl
contains-any topic (r ∷ rs) = ground (arith, contains-any topic rs)

verdict-pass :
    (a b c : Bool)
    → (if a then inconclusive else if b then fail else if c then inconclusive else pass) ≡ pass
    → (a ≡ false) × (b ≡ false) × (c ≡ false)
verdict-pass true b c h = absurd (ground (arith, ap is_inconclusive h))
verdict-pass false true c h = absurd (ground (arith, ap is_fail h))
verdict-pass false false true h = absurd (ground (arith, ap is_inconclusive h))
verdict-pass false false false h = (refl, refl, refl)

findings-Quiet :
    (events : List Event) (event_paths : List String) (evidence_errors : List EvidenceError)
    (manifest : Manifest) (expectations : Expectations) (topic : String)
    → (analyze events event_paths evidence_errors manifest expectations).verdict ≡ pass
    → contains topic manifest.topics ≡ true
    → Quiet (findings_of expectations events) topic
unfolding analyze overall
findings-Quiet events event_paths evidence_errors manifest expectations topic h c =
    let e = expect_all expectations (sends_of expectations events) in
    let errors = not (is_nil (evidence_errors ++ e.errors)) in
    let f = findings_of expectations events in
    let rs = sorted requirement_lt manifest.topics in
    let topics = summaries errors f rs in
    let none_of =
      verdict-pass (is_nil event_paths || errors) (any (λ t. is_fail t.1.verdict) topics)
        (any (λ t. is_inconclusive t.1.verdict) topics) h in
    summaries-Quiet errors f rs topic none_of.1 none_of.2 (
      any-sorted requirement_lt (λ r. str_eq r.0 topic) manifest.topics
      ∙ contains-any topic manifest.topics
      ∙ c)

contains-All :
    (topic : String) (expectations : Expectations) (rs : Dict String Requirement)
    → All (λ x. contains x.0 rs ≡ true) expectations
    → IsExpected expectations topic
    → contains topic rs ≡ true
contains-All topic [] rs h c = absurd (ground (arith, c))
contains-All topic ((t, x) ∷ xs) rs (h, hs) c = elim (Bool-cases (str_eq t topic)) [
  | inl n ↦ subst (λ name. contains name rs ≡ true) ((eq_iff t topic).0 n) h
  | inr n ↦ contains-All topic xs rs hs (ground (arith, c, n))
]

get_default-nil :
    (key : DeliveryKey) (d : Dict DeliveryKey ℕ) → is_nil d ≡ true → get_default key 0 d ≡ 0
get_default-nil key [] h = refl
get_default-nil key (item ∷ d) h = absurd (ground (arith, h))

-- When the verdict is `pass`, and every topic with an expectation is one of the manifest's, each
-- delivery was received exactly as often as it was expected, once or never.
pub analyze-pass :
    (events : List Event) (event_paths : List String) (evidence_errors : List EvidenceError)
    (manifest : Manifest) (expectations : Expectations) (key : DeliveryKey)
    → All (λ x. contains x.0 manifest.topics ≡ true) expectations
    → (analyze events event_paths evidence_errors manifest expectations).verdict ≡ pass
    → (occurrences key (keys_of (receives_of expectations events))
        ≡ occurrences key (expected_keys (findings_of expectations events).expected))
      × (occurrences key (expected_keys (findings_of expectations events).expected) ≤ 1)
unfolding findings_of sends_of receives_of received_keys
analyze-pass events event_paths evidence_errors manifest expectations key topics h =
    let receives = receives_of expectations events in
    let items = (expect_all expectations (sends_of expectations events)).expected in
    let d = received_keys receives in
    let quiet = λ (topic : String) (c : IsExpected expectations topic).
      findings-Quiet events event_paths evidence_errors manifest expectations topic h
        (contains-All topic expectations manifest.topics topics c) in
    let on_topic =
      expect_all-IsExpected expectations (sends_of expectations events)
        (keep-IsExpected expectations "sent" events) in
    let missing =
      empty_of_topics expectations (λ k. k.0) (match_all items d).missing
        (match_all-missing expectations items d on_topic) (λ t c. (quiet t c).0) in
    let duplicates =
      empty_of_topics expectations (λ k. k.0.0) (match_all items d).duplicates
        (match_all-duplicates expectations items d on_topic) (λ t c. (quiet t c).1) in
    let left =
      empty_of_topics expectations (λ k. k.0.0) (match_all items d).left
        (match_all-left expectations items d (
          tally-IsExpected expectations receives [] (keep-IsExpected expectations "received" events)
            tt))
        (λ t c.
          sym (length-keep-sorted key_lt (counted_on t) (match_all items d).left)
          ∙ (quiet t c).2) in
    let exact = match_all-exact items d key (received_keys-Unique receives) missing duplicates in
    (
      omega (
        arith,
        exact.0,
        get_default-nil key (match_all items d).left left,
        get_default-tally (keys_of receives) key [],
      ),
      exact.1,
    )
