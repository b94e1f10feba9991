-- ===== src/Dashboard/WireDelivery/Earliest.antt =====
-- Which observation of a sample `WireDelivery` keeps, and the order in which the nodes' files are read.
use act_sim_scope_infra.Common.{
  ℕ, min, ◌≡◌, refl, ap, sym, ◌∙◌, List, [], ◌∷◌, ◌++◌, Bool, true, false, ◌&&◌, Option, none, some,
  ltb, if◌then◌else◌, lookup, insert, lookup-insert, string_key, nat_key, pair_key, arith, inl, inr,
  Bool-cases, Option-cases,
}
use act_sim_scope_infra.Dashboard.WireDelivery.{
  Kind, Identity, Observation, Store, WireDelivery, Parsed, announced, observed, version,
  keep_first, store_event,
}

abbrev pub store_of : Kind → WireDelivery → Store
store_of Kind.sent w = w.sent
store_of Kind.received w = w.received
store_of Kind.retransmitted w = w.retransmitted
store_of Kind.endpoint w = []

abbrev pub version_of : Kind → Option Observation → Option ℕ
version_of kind none = none
version_of kind (some o) = some (version kind o)

-- By what a sample is known in the store of a kind.
abbrev pub version_at : Kind → Identity → WireDelivery → Option ℕ
version_at kind key w = version_of kind (lookup key (store_of kind w))

abbrev pub earlier_of : Option ℕ → Option ℕ → Option ℕ
earlier_of none v = v
earlier_of (some m) none = some m
earlier_of (some m) (some n) = some (min m n)

-- Events of samples have one of three kinds.
abbrev pub same_kind : Kind → Kind → Bool
same_kind Kind.sent Kind.sent = true
same_kind Kind.received Kind.received = true
same_kind Kind.retransmitted Kind.retransmitted = true
same_kind k j = false

abbrev pub version_in : Kind → Identity → Parsed → Option ℕ
version_in kind key (announced e m) = none
version_in kind key (observed k i o) =
    if same_kind k kind && pair_key.same i key then some (version kind o) else none

-- The earliest of the observations of a sample.
abbrev pub earliest : Kind → Identity → List Parsed → Option ℕ
earliest kind key [] = none
earliest kind key (p ∷ ps) = earlier_of (version_in kind key p) (earliest kind key ps)

abbrev pub store_all : List Parsed → WireDelivery → WireDelivery
store_all [] w = w
store_all (p ∷ ps) w = store_all ps (store_event p w)

earlier_of_assoc :
    (u v w : Option ℕ) → earlier_of (earlier_of u v) w ≡ earlier_of u (earlier_of v w)
earlier_of_assoc u v w = ground arith

earlier_of_comm : (u v : Option ℕ) → earlier_of u v ≡ earlier_of v u
earlier_of_comm u v = ground arith

version-insert :
    (kind : Kind) (i key : Identity) (o : Observation) (store : Store)
    → version_of kind (lookup key (insert i o store))
      ≡ (if pair_key.same i key then some (version kind o) else version_of kind (lookup key store))
version-insert kind i key o store =
    ap (version_of kind) (lookup-insert i key o store)
    ∙ version_of-if (pair_key.same i key) (some o) (lookup key store)
  where
    version_of-if :
        (b : Bool) (p q : Option Observation)
        → version_of kind (if b then p else q)
          ≡ (if b then version_of kind p else version_of kind q)
    version_of-if true p q = refl
    version_of-if false p q = refl

-- A new version replaces one that is absent or later, and not one that is earlier.
replaced :
    (b : Bool) (x : Option ℕ) (n : ℕ)
    → (b ≡ true → earlier_of x (some n) ≡ some n)
    → (if b then some n else x) ≡ earlier_of x (if b then some n else none)
replaced true x n h = sym (h refl)
replaced false none n h = refl
replaced false (some m) n h = refl

retained :
    (b : Bool) (x : Option ℕ) (n : ℕ)
    → (b ≡ true → earlier_of x (some n) ≡ x)
    → x ≡ earlier_of x (if b then some n else none)
retained true x n h = sym (h refl)
retained false none n h = refl
retained false (some m) n h = refl

-- One observation, at its own key and at another.
keep_first-earlier :
    (kind : Kind) (i key : Identity) (o : Observation) (store : Store)
    → version_of kind (lookup key (keep_first kind i o store))
      ≡ earlier_of
          (version_of kind (lookup key store))
          (if pair_key.same i key then some (version kind o) else none)
unfolding keep_first
keep_first-earlier kind i key o store =
    let here : (q : Option Observation)
        → lookup i store ≡ q
        → pair_key.same i key ≡ true
        → lookup key store ≡ q =
      λ q e s. ap (λ k. lookup k store) (sym ((pair_key.same_iff i key).0 s)) ∙ e in
    elim (Option-cases (lookup i store)) [
      | inl e ↦
          rw (e, keep_first)
            (version-insert kind i key o store
              ∙ replaced (pair_key.same i key) (version_of kind (lookup key store)) (version kind o)
                  (λ s.
                    ap (λ q. earlier_of (version_of kind q) (some (version kind o)))
                      (here none e s)))
      | inr (p, e) ↦ elim (Bool-cases (ltb (version kind o) (version kind p))) [
        | inl l ↦
            rw (e, l, keep_first)
              (version-insert kind i key o store
                ∙ replaced (pair_key.same i key) (version_of kind (lookup key store))
                    (version kind o)
                    (λ s.
                      ap (λ q. earlier_of (version_of kind q) (some (version kind o)))
                        (here (some p) e s)
                      ∙ ap some (ground (arith, l))))
        | inr l ↦
            rw (e, l, keep_first)
              (retained (pair_key.same i key) (version_of kind (lookup key store)) (version kind o)
                (λ s.
                  ap (λ q. earlier_of (version_of kind q) (some (version kind o)))
                    (here (some p) e s)
                  ∙ ap some (ground (arith, l))
                  ∙ ap (version_of kind) (sym (here (some p) e s))))
      ]
    ]

earlier_none : (v : Option ℕ) → v ≡ earlier_of v none
earlier_none none = refl
earlier_none (some m) = refl

store_event-earlier :
    (kind : Kind) (key : Identity) (p : Parsed) (w : WireDelivery)
    → version_at kind key (store_event p w)
      ≡ earlier_of (version_at kind key w) (version_in kind key p)
unfolding store_event
store_event-earlier Kind.sent key (announced e m) w = earlier_none _
store_event-earlier Kind.received key (announced e m) w = earlier_none _
store_event-earlier Kind.retransmitted key (announced e m) w = earlier_none _
store_event-earlier Kind.endpoint key (announced e m) w = refl
store_event-earlier Kind.sent key (observed Kind.sent i o) w =
    keep_first-earlier Kind.sent i key o w.sent
store_event-earlier Kind.sent key (observed Kind.received i o) w = earlier_none _
store_event-earlier Kind.sent key (observed Kind.retransmitted i o) w = earlier_none _
store_event-earlier Kind.sent key (observed Kind.endpoint i o) w = earlier_none _
store_event-earlier Kind.received key (observed Kind.sent i o) w = earlier_none _
store_event-earlier Kind.received key (observed Kind.received i o) w =
    keep_first-earlier Kind.received i key o w.received
store_event-earlier Kind.received key (observed Kind.retransmitted i o) w = earlier_none _
store_event-earlier Kind.received key (observed Kind.endpoint i o) w = earlier_none _
store_event-earlier Kind.retransmitted key (observed Kind.sent i o) w = earlier_none _
store_event-earlier Kind.retransmitted key (observed Kind.received i o) w = earlier_none _
store_event-earlier Kind.retransmitted key (observed Kind.retransmitted i o) w =
    keep_first-earlier Kind.retransmitted i key o w.retransmitted
store_event-earlier Kind.retransmitted key (observed Kind.endpoint i o) w = earlier_none _
store_event-earlier Kind.endpoint key (observed Kind.sent i o) w = refl
store_event-earlier Kind.endpoint key (observed Kind.received i o) w = refl
store_event-earlier Kind.endpoint key (observed Kind.retransmitted i o) w = refl
store_event-earlier Kind.endpoint key (observed Kind.endpoint i o) w = refl

-- After any events the version by which a sample is known is the earliest of its observations, those
-- before and those among the events.
pub store_all-earliest :
    (kind : Kind) (key : Identity) (ps : List Parsed) (w : WireDelivery)
    → version_at kind key (store_all ps w)
      ≡ earlier_of (version_at kind key w) (earliest kind key ps)
store_all-earliest kind key [] w = earlier_none _
store_all-earliest kind key (p ∷ ps) w =
    store_all-earliest kind key ps (store_event p w)
    ∙ ap (λ v. earlier_of v (earliest kind key ps)) (store_event-earlier kind key p w)
    ∙ earlier_of_assoc (version_at kind key w) (version_in kind key p) (earliest kind key ps)

earliest-append :
    (kind : Kind) (key : Identity) (ps qs : List Parsed)
    → earliest kind key (ps ++ qs) ≡ earlier_of (earliest kind key ps) (earliest kind key qs)
earliest-append kind key [] qs = refl
earliest-append kind key (p ∷ ps) qs =
    ap (earlier_of (version_in kind key p)) (earliest-append kind key ps qs)
    ∙ sym (earlier_of_assoc (version_in kind key p) (earliest kind key ps) (earliest kind key qs))

-- Two files may be read in either order: each sample is known by the same time of sending, of completion
-- and of retransmission.
pub store_all-order :
    (kind : Kind) (key : Identity) (ps qs : List Parsed) (w : WireDelivery)
    → version_at kind key (store_all (ps ++ qs) w) ≡ version_at kind key (store_all (qs ++ ps) w)
store_all-order kind key ps qs w =
    store_all-earliest kind key (ps ++ qs) w
    ∙ ap (earlier_of (version_at kind key w)) (
        earliest-append kind key ps qs
        ∙ earlier_of_comm (earliest kind key ps) (earliest kind key qs)
        ∙ sym (earliest-append kind key qs ps))
    ∙ sym (store_all-earliest kind key (qs ++ ps) w)
