-- ===== src/Dashboard/Bridge/Counts/Recount.antt =====
-- The counters of `poll_audit_events` against a count of the events that are kept.
use act_sim_scope_infra.Common.{
  ℕ, ◌+◌, ◌≡◌, refl, List, [], ◌∷◌, Bool, true, false, ◌&&◌, ◌||◌, Option, none, some,
  if◌then◌else◌, Dict, lookup, contains, insert, Key, pair_key, any, Unique, insert-Unique, arith,
  inl, inr, Bool-cases, Option-cases, get_default-insert, sym, ap, ◌∙◌, subst,
}
use act_sim_scope_infra.Dashboard.Bridge.Counts.{
  Audit, bump_sent, bump_received, is_in, version_at, count_sent, note_sent, credit, note_received,
}
use act_sim_scope_infra.Dashboard.Bridge.Counts.Tallies.{
  bit, counts_for, sent_count, received_count, sent_count-insert, received_count-insert, credit_of,
  received_count-receive,
}

-- A list that names no recipient twice.
module _ {R : Type 0} ⦃er : Key R⦄ where
  abbrev pub NoRepeat : List R → Type 0
  NoRepeat [] = Unit
  NoRepeat (r ∷ rs) = (any (λ s. er.same s r) rs ≡ false) × NoRepeat rs

abbrev pair : ℕ → ℕ → ℕ × ℕ
pair s n = (s, n)

pair-eq : {a b c d : ℕ} → a ≡ c → b ≡ d → pair a b ≡ pair c d
pair-eq {b = b} {c = c} p q = ap (λ x. pair x b) p ∙ ap (pair c) q

is_credit : (a b c : Bool) → b ≡ true → (a && c) ≡ ((a && b) && c)
is_credit a b c h = ground (arith, h)

no_credit : (a b c : Bool) (n : ℕ) → b ≡ false → n ≡ n + bit ((a && b) && c)
no_credit a b c n h = ground (arith, h)

if-off : {A : Type 0} (b c : Bool) (x y : A) → b ≡ false → (if b && c then x else y) ≡ y
if-off b c x y h = rw h refl

if-off_right : {A : Type 0} (b c : Bool) (x y : A) → c ≡ false → (if b && c then x else y) ≡ y
if-off_right true c x y h = rw h refl
if-off_right false c x y h = refl

module _ {K F R E : Type 0} ⦃ek : Key K⦄ ⦃ef : Key F⦄ ⦃er : Key R⦄ (group : K → F)
    (expected : E → List R) (f : F) (r : R) where
  -- Counting the recipients of one sent event, each at its own flow.
  count_sent-version :
      (key : K) (rs : List R) (received : Dict (K × R) E) (v : Dict (F × R) (ℕ × ℕ))
      → NoRepeat rs
      → version_at group expected (f, r) (count_sent group expected key rs received v) ≡ (
          if ef.same (group key) f && any (λ s. er.same s r) rs
          then bump_sent (contains (key, r) received) (version_at group expected (f, r) v)
          else version_at group expected (f, r) v)
  count_sent-version key [] received v u = ground arith
  count_sent-version key (s ∷ rs) received v u =
      let x = bump_sent (contains (key, s) received) (version_at group expected (group key, s) v) in
      let w = insert (group key, s) x v in
      let later = count_sent-version key rs received w u.1 in
      let now : version_at group expected (f, r) w ≡ (
          if ef.same (group key) f && er.same s r then x else version_at group expected (f, r) v) =
        get_default-insert (group key, s) (f, r) x (0, 0) v in
      elim (Bool-cases (ef.same (group key) f)) [
        | inr b ↦
            later
            ∙ if-off (ef.same (group key) f) (any (λ t. er.same t r) rs)
                (bump_sent (contains (key, r) received) (version_at group expected (f, r) w))
                (version_at group expected (f, r) w) b
            ∙ now
            ∙ if-off (ef.same (group key) f) (er.same s r) x (version_at group expected (f, r) v) b
            ∙ sym (
                if-off (ef.same (group key) f) (er.same s r || any (λ t. er.same t r) rs)
                  (bump_sent (contains (key, r) received) (version_at group expected (f, r) v))
                  (version_at group expected (f, r) v) b)
        | inl b ↦ elim (Bool-cases (er.same s r)) [
          | inl c ↦
              let none_left =
                subst (λ t. any (λ y. er.same y t) rs ≡ false) ((er.same_iff s r).0 c) u.0 in
              later
              ∙ if-off_right (ef.same (group key) f) (any (λ t. er.same t r) rs)
                  (bump_sent (contains (key, r) received) (version_at group expected (f, r) w))
                  (version_at group expected (f, r) w) none_left
              ∙ now
              ∙ rw (b, c)
                  (ap
                      (λ t.
                        bump_sent (contains (key, t) received)
                          (version_at group expected (group key, t) v))
                      ((er.same_iff s r).0 c)
                    ∙ ap
                        (λ g.
                          bump_sent (contains (key, r) received)
                            (version_at group expected (g, r) v))
                        ((ef.same_iff (group key) f).0 b))
          | inr c ↦ rw c (
              later
              ∙ ap
                  (λ z.
                    if ef.same (group key) f && any (λ t. er.same t r) rs
                    then bump_sent (contains (key, r) received) z
                    else z)
                  (now
                    ∙ if-off_right (ef.same (group key) f) (er.same s r) x
                        (version_at group expected (f, r) v) c))
        ]
      ]

  -- The counters of the flow from f to r are those of the events kept, with x sent and y received events
  -- that are kept no longer.
  abbrev pub IsRecounted : ℕ → ℕ → Audit K F R E → Type 0
  IsRecounted x y a =
      Unique a.sent
      × (version_at group expected (f, r) a.versions ≡ (
        sent_count group expected f r a.sent + x,
        received_count group expected f r a.received a.sent + y,
      ))

  bump_if :
      (b here : Bool) (s n : ℕ)
      → (if b then bump_sent here (s, n) else (s, n)) ≡ (s + bit b, n + bit (b && here))
  bump_if true true s n = pair-eq (omega arith) (omega arith)
  bump_if true false s n = pair-eq (omega arith) (omega arith)
  bump_if false here s n = pair-eq (omega arith) (omega arith)

  pub note_sent-IsRecounted :
      (x y : ℕ) (key : K) (event : E) (a : Audit K F R E)
      → NoRepeat (expected event)
      → IsRecounted x y a
      → IsRecounted x y (note_sent group expected key event a)
  unfolding note_sent
  note_sent-IsRecounted x y key event a u (q, h) = elim (Option-cases (lookup key a.sent)) [
    | inr (e, o) ↦ rw o (q, h)
    | inl o ↦ rw o (
      insert-Unique key event a.sent q,
      count_sent-version key (expected event) a.received a.versions u
          ∙ ap
              (λ p.
                if counts_for group expected f r key event
                then bump_sent (contains (key, r) a.received) p
                else p)
              h
          ∙ bump_if (counts_for group expected f r key event) (contains (key, r) a.received)
              (sent_count group expected f r a.sent + x)
              (received_count group expected f r a.received a.sent + y)
          ∙ pair-eq (omega (arith, sent_count-insert group expected f r key event a.sent o)) (
              omega
                (arith, received_count-insert group expected f r a.received key event a.sent o)),
    )
  ]

  named :
      (key : K) (sent : E) (node : R)
      → (counts_for group expected f r key sent && er.same node r)
        ≡ ((ef.same (group key) f && is_in group expected node (expected sent)) && er.same node r)
  named key sent node = elim (Bool-cases (er.same node r)) [
    | inl c ↦
        ap
          (λ t. (ef.same (group key) f && is_in group expected t (expected sent)) && er.same node r)
          (sym ((er.same_iff node r).0 c))
    | inr c ↦ rw c (ground arith)
  ]

  -- The flow that is credited, read back.
  credited :
      (key : K) (node : R) (v : Dict (F × R) (ℕ × ℕ))
      → (if ef.same (group key) f && er.same node r
          then bump_received (version_at group expected (group key, node) v)
          else version_at group expected (f, r) v)
        ≡ (
          (version_at group expected (f, r) v).0,
          (version_at group expected (f, r) v).1 + bit (ef.same (group key) f && er.same node r),
        )
  credited key node v = elim (Bool-cases (ef.same (group key) f)) [
    | inr b ↦ rw b (pair-eq refl (omega arith))
    | inl b ↦ elim (Bool-cases (er.same node r)) [
      | inr c ↦ rw (b, c) (pair-eq refl (omega arith))
      | inl c ↦
          rw (b, c)
            (ap (λ t. bump_received (version_at group expected (group key, t) v))
                ((er.same_iff node r).0 c)
              ∙ ap (λ g. bump_received (version_at group expected (g, r) v))
                  ((ef.same_iff (group key) f).0 b)
              ∙ pair-eq refl (omega arith))
    ]
  ]

  credit-version :
      (o : Option E) (key : K) (node : R) (v : Dict (F × R) (ℕ × ℕ))
      → version_at group expected (f, r) (credit group expected o key node v) ≡ (
        (version_at group expected (f, r) v).0,
        (version_at group expected (f, r) v).1 + credit_of group expected f r o key node,
      )
  credit-version none key node v = pair-eq refl (omega arith)
  credit-version (some sent) key node v =
      elim (Bool-cases (is_in group expected node (expected sent))) [
        | inl b ↦ rw b (
            get_default-insert (group key, node) (f, r)
              (bump_received (version_at group expected (group key, node) v)) (0, 0) v
            ∙ credited key node v
            ∙ pair-eq refl (
                ap (λ c. (version_at group expected (f, r) v).1 + bit c)
                  (is_credit (ef.same (group key) f) (is_in group expected node (expected sent))
                      (er.same node r) b
                    ∙ sym (named key sent node))))
        | inr b ↦ rw b (
            pair-eq refl (
              no_credit (ef.same (group key) f) (is_in group expected node (expected sent))
                (er.same node r) (version_at group expected (f, r) v).1 b
              ∙ ap (λ c. (version_at group expected (f, r) v).1 + bit c)
                  (sym (named key sent node))))
      ]

  pub note_received-IsRecounted :
      (x y : ℕ) (key : K) (node : R) (event : E) (a : Audit K F R E)
      → IsRecounted x y a
      → IsRecounted x y (note_received group expected key node event a)
  unfolding note_received
  note_received-IsRecounted x y key node event a (q, h) =
      elim (Bool-cases (contains (key, node) a.received)) [
        | inl b ↦ rw b (q, h)
        | inr b ↦ rw b (
          q,
          credit-version (lookup key a.sent) key node a.versions
              ∙ ap (λ p. (p.0, p.1 + credit_of group expected f r (lookup key a.sent) key node)) h
              ∙ pair-eq refl (
                  omega (
                    arith,
                    received_count-receive group expected f r key node event a.received a.sent q b,
                  )),
        )
      ]
