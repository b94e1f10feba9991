-- ===== src/Dashboard/Bridge/Counts/Tallies.antt =====
-- The events kept by `poll_audit_events`, counted for one flow.
use act_sim_scope_infra.Common.{
  ℕ, ◌+◌, ◌≤◌, ◌≡◌, refl, List, [], ◌∷◌, Bool, true, false, ◌&&◌, Option, none, some, if◌then◌else◌,
  Dict, lookup, contains, keep, insert, Key, pair_key, any, Unique, arith, inl, inr, Bool-cases,
  lookup-insert, sym, ap, ◌∙◌, subst,
}

abbrev pub bit : Bool → ℕ
bit b = if b then 1 else 0

fresh-cons :
    {K E : Type 0} ⦃ek : Key K⦄ (key k : K) (e : E) (d : Dict K E)
    → lookup key ((k, e) ∷ d) ≡ none
    → (ek.same k key ≡ false) × (lookup key d ≡ none)
fresh-cons ⦃ek⦄ key k e d h = ground (arith, h)

-- One entry before and after, by what the test of its key and recipient says.
entry-step :
    (counted after before a b : Bool)
    → after ≡ (if a && b then true else before)
    → ((a && b) && before) ≡ false
    → (if counted && after then 1 else 0)
      ≡ (if counted && before then 1 else 0) + (if a && (b && counted) then 1 else 0)
entry-step counted after before a b h l = ground (arith, h, l)

contains-keep :
    {K V : Type 0} ⦃e : Key K⦄ (p : K × V → Bool) (k : K) (d : Dict K V)
    → contains k (keep p d) ≡ true
    → contains k d ≡ true
contains-keep p k [] h = h
contains-keep ⦃e⦄ p k ((j, v) ∷ d) h = elim (Bool-cases (p (j, v))) [
  | inl b ↦ ground (arith, rw b at h, contains-keep p k d)
  | inr b ↦ ground (arith, rw b at h, contains-keep p k d)
]

module _ {K F R E : Type 0} ⦃ek : Key K⦄ ⦃ef : Key F⦄ ⦃er : Key R⦄ (group : K → F)
    (expected : E → List R) (f : F) (r : R) where
  -- The sent event counts for the flow from the group f to r.
  abbrev pub counts_for : K → E → Bool
  counts_for key event = ef.same (group key) f && any (λ s. er.same s r) (expected event)

  abbrev pub sent_count : Dict K E → ℕ
  sent_count [] = 0
  sent_count ((key, event) ∷ d) = (if counts_for key event then 1 else 0) + sent_count d

  abbrev pub received_count : Dict (K × R) E → Dict K E → ℕ
  received_count received [] = 0
  received_count received ((key, event) ∷ d) =
      (if counts_for key event && contains (key, r) received then 1 else 0)
      + received_count received d

  pub sent_count-insert :
      (key : K) (event : E) (d : Dict K E)
      → lookup key d ≡ none
      → sent_count (insert key event d) ≡ sent_count d + (if counts_for key event then 1 else 0)
  sent_count-insert key event [] h = omega arith
  sent_count-insert key event ((k, e) ∷ d) h =
      let off = fresh-cons key k e d h in
      rw off.0 (omega (arith, sent_count-insert key event d off.1))

  pub received_count-insert :
      (received : Dict (K × R) E) (key : K) (event : E) (d : Dict K E)
      → lookup key d ≡ none
      → received_count received (insert key event d)
        ≡ received_count received d
          + (if counts_for key event && contains (key, r) received then 1 else 0)
  received_count-insert received key event [] h = omega arith
  received_count-insert received key event ((k, e) ∷ d) h =
      let off = fresh-cons key k e d h in
      rw off.0 (omega (arith, received_count-insert received key event d off.1))

  -- What one received event adds to the flow from f to r.
  abbrev pub credit_of : Option E → K → R → ℕ
  credit_of none key node = 0
  credit_of (some sent) key node = if counts_for key sent && er.same node r then 1 else 0

  contains-insert :
      (key k : K) (node : R) (event : E) (received : Dict (K × R) E)
      → contains (k, r) (insert (key, node) event received)
        ≡ (if ek.same key k && er.same node r then true else contains (k, r) received)
  contains-insert key k node event received =
      ground (arith, lookup-insert (key, node) (k, r) event received)

  clear :
      (key k : K) (node : R) (received : Dict (K × R) E)
      → contains (key, node) received ≡ false
      → ((ek.same key k && er.same node r) && contains (k, r) received) ≡ false
  clear key k node received h = elim (Bool-cases (ek.same key k)) [
    | inr b ↦ rw b refl
    | inl b ↦ elim (Bool-cases (er.same node r)) [
      | inr c ↦ rw (b, c) refl
      | inl c ↦
          rw (b, c)
            (ap (λ j. contains (j, r) received) (sym ((ek.same_iff key k).0 b))
              ∙ ap (λ n. contains (key, n) received) (sym ((er.same_iff node r).0 c))
              ∙ h)
    ]
  ]

  same_moved :
      (key k : K)
      → k ≡ key
      → (b : Bool) (p : K → Bool) → bit (ek.same key k && (b && p k)) ≡ bit (p key && b)
  same_moved key k h b p =
      subst (λ j. bit (ek.same key j && (b && p j)) ≡ bit (p key && b)) (sym h)
        (ground (arith, ek.same_iff key key))

  same_off : (key k : K) → ek.same k key ≡ false → (b : Bool) → bit (ek.same key k && b) ≡ 0
  same_off key k h b = ground (arith, ek.same_iff key k, ek.same_iff k key, h)

  pub received_count-receive :
      (key : K) (node : R) (event : E) (received : Dict (K × R) E) (d : Dict K E)
      → Unique d
      → contains (key, node) received ≡ false
      → received_count (insert (key, node) event received) d
        ≡ received_count received d + credit_of (lookup key d) key node
  received_count-receive key node event received [] u h = omega arith
  received_count-receive key node event received ((k, e) ∷ d) (n, u) h =
      let step =
        entry-step (counts_for k e) (contains (k, r) (insert (key, node) event received))
          (contains (k, r) received) (ek.same key k) (er.same node r)
          (contains-insert key k node event received) (clear key k node received h) in
      let rest = received_count-receive key node event received d u h in
      elim (Bool-cases (ek.same k key)) [
        | inl b ↦
            let at_key = (ek.same_iff k key).0 b in
            let none_left =
              ap (λ o. received_count received d + credit_of o key node)
                (subst (λ j. lookup j d ≡ none) at_key n) in
            let moved = same_moved key k at_key (er.same node r) (λ j. counts_for j e) in
            rw b (omega (arith, step, rest, none_left, moved))
        | inr b ↦
            let off = same_off key k b (er.same node r && counts_for k e) in
            rw b (omega (arith, step, rest, off))
      ]

  -- Events that are let go of take their counts along.
  pub sent_count-keep-le : (p : K × E → Bool) (d : Dict K E) → sent_count (keep p d) ≤ sent_count d
  sent_count-keep-le p [] = omega arith
  sent_count-keep-le p ((key, event) ∷ d) = elim (Bool-cases (p (key, event))) [
    | inl b ↦ rw b (omega (arith, sent_count-keep-le p d))
    | inr b ↦ rw b (omega (arith, sent_count-keep-le p d))
  ]

  fewer :
      (c before after : Bool)
      → (after ≡ true → before ≡ true)
      → bit (c && after) ≤ bit (c && before)
  fewer c before after h = ground (arith, h)

  pub received_count-keep-le :
      (p : (K × R) × E → Bool) (q : K × E → Bool) (received : Dict (K × R) E) (d : Dict K E)
      → received_count (keep p received) (keep q d) ≤ received_count received d
  received_count-keep-le p q received [] = omega arith
  received_count-keep-le p q received ((key, event) ∷ d) =
      let here =
        fewer (counts_for key event) (contains (key, r) received)
          (contains (key, r) (keep p received)) (contains-keep p (key, r) received) in
      elim (Bool-cases (q (key, event))) [
        | inl b ↦ rw b (omega (arith, here, received_count-keep-le p q received d))
        | inr b ↦ rw b (omega (arith, received_count-keep-le p q received d))
      ]
