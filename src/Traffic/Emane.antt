-- ===== src/Traffic/Emane.antt =====
-- `counter_delta` and `class EmaneSampler` of debug/scripts/domain_traffic_monitor.py. The counters that
-- `read_emane_mac_counters` returns, `none` when it fails, are an argument of `poll`, with the times
-- before and after; a time of sampling, their mean, is kept as their sum.
mod Tests
use act_sim_scope_infra.Common.{
  ℕ, ◌+◌, ◌-◌, ◌*◌, ◌/◌, ◌≤◌, ◌<◌, ◌⊎◌, ◌≡◌, refl, ap, ◌∙◌, sym, String, List, [], ◌∷◌, Bool, true,
  false, Option, none, some, some-injective, ltb, if◌then◌else◌, Dict, lookup, string_key, arith,
  inl, inr, Bool-cases, Option-cases, All,
}

abbrev pub Counters : Type 0
Counters = Dict String ℕ

-- `counter_delta` raises for a counter that went back, and by `previous[name]` for one that is new.
pub data Delta : Type 0 where
  reset missing : Delta
  delta : Counters → Delta

-- `any(value < previous[name] for name, value in current.items())`, with the differences
abbrev pub add_delta : String → ℕ → Delta → Delta
add_delta name d (delta ds) = delta ((name, d) ∷ ds)
add_delta name d other = other

pub counter_delta : Counters → Counters → Delta
counter_delta [] previous = delta []
counter_delta ((name, value) ∷ current) previous =
    let rest = counter_delta current previous in
    elim (lookup name previous) [
      | none ↦ missing
      | some old ↦ if ltb value old then reset else add_delta name (value - old) rest
    ]

pub record Sampler : Type 0 where
  pub previous : Option (Counters × ℕ)

pub record Sample : Type 0 where
  pub interval : ℕ
  pub counters : Counters

-- How `poll` ends: `failed` is the `KeyError`, which leaves the sampler as it is.
pub data Polled : Type 0 where
  nothing failed : Polled
  sampled : Sample → Polled

abbrev pub is_failed : Polled → Bool
is_failed failed = true
is_failed p = false

pub result_of : Counters → ℕ → Option (Counters × ℕ) → Polled
unfolding counter_delta
result_of current at none = nothing
result_of current at (some (previous, before)) = elim (counter_delta current previous) [
  | reset ↦ nothing
  | missing ↦ failed
  | delta d ↦ sampled (record { interval = (at - before) / 2; counters = d })
]

pub poll : ℕ → ℕ → Option Counters → Sampler → Polled × Sampler
unfolding result_of
poll start end none s = (nothing, record { previous = none })
poll start end (some current) s =
    let result = result_of current (start + end) s.previous in
    (result, if is_failed result then s else record { previous = some (current, start + end) })

-- The counters of a difference are those of the reading, and each difference leads from the previous
-- value to the current one.
abbrev pub Leads : Counters → Counters → Counters → Type 0
Leads previous [] [] = Unit
Leads previous [] (d ∷ ds) = ⊥
Leads previous (c ∷ cs) [] = ⊥
Leads previous ((name, value) ∷ cs) ((n, d) ∷ ds) =
    (n ≡ name)
    × ((old : ℕ) × (lookup name previous ≡ some old) × (old + d ≡ value))
    × Leads previous cs ds

-- A counter went back, and those before it did not.
abbrev pub WentBack : Counters → Counters → Type 0
WentBack previous [] = ⊥
WentBack previous ((name, value) ∷ cs) =
    (old : ℕ) × (lookup name previous ≡ some old)
    × ((value < old) ⊎ ((old ≤ value) × WentBack previous cs))

-- A counter is new, and those before it did not go back.
abbrev pub IsNew : Counters → Counters → Type 0
IsNew previous [] = ⊥
IsNew previous ((name, value) ∷ cs) =
    (lookup name previous ≡ none)
    ⊎ ((old : ℕ) × (lookup name previous ≡ some old) × (old ≤ value) × IsNew previous cs)

abbrev pub DeltaLeads : Counters → Counters → Delta → Type 0
DeltaLeads previous current reset = WentBack previous current
DeltaLeads previous current missing = IsNew previous current
DeltaLeads previous current (delta ds) = Leads previous current ds

add_delta-Leads :
    (name : String) (value old : ℕ) (current previous : Counters) (rest : Delta)
    → lookup name previous ≡ some old
    → old ≤ value
    → DeltaLeads previous current rest
    → DeltaLeads previous ((name, value) ∷ current) (add_delta name (value - old) rest)
add_delta-Leads name value old current previous reset e h l = (old, e, inr (h, l))
add_delta-Leads name value old current previous missing e h l = inr (old, e, h, l)
add_delta-Leads name value old current previous (delta ds) e h l =
    (refl, (old, e, omega (arith, h)), l)

counter_delta-Leads :
    (current previous : Counters) → DeltaLeads previous current (counter_delta current previous)
unfolding counter_delta
counter_delta-Leads [] previous = tt
counter_delta-Leads ((name, value) ∷ current) previous =
    elim (Option-cases (lookup name previous)) [
      | inl e ↦ rw (e, counter_delta) (inl e)
      | inr (old, e) ↦ elim (Bool-cases (ltb value old)) [
        | inl b ↦ rw (e, b, counter_delta) (old, e, inl (ground (arith, b)))
        | inr b ↦
            rw (e, b, counter_delta)
              (add_delta-Leads name value old current previous (counter_delta current previous) e
                (ground (arith, b)) (counter_delta-Leads current previous))
      ]
    ]

-- What `poll` says of the reading before and the one at a time: nothing when there is none before, or a
-- counter went back; a failure when a counter is new; and else the differences.
abbrev pub IsSampled : Option (Counters × ℕ) → Counters → ℕ → Polled → Type 0
IsSampled none current at p = p ≡ nothing
IsSampled (some (previous, before)) current at nothing = WentBack previous current
IsSampled (some (previous, before)) current at failed = IsNew previous current
IsSampled (some (previous, before)) current at (sampled s) =
    Leads previous current s.counters × (s.interval ≡ (at - before) / 2)

result_of-IsSampled :
    (current : Counters) (at : ℕ) (p : Option (Counters × ℕ))
    → IsSampled p current at (result_of current at p)
unfolding result_of
result_of-IsSampled current at none = refl
result_of-IsSampled current at (some (previous, before)) =
    go (counter_delta current previous) (counter_delta-Leads current previous)
  where
    go :
        (d : Delta)
        → DeltaLeads previous current d
        → IsSampled (some (previous, before)) current at (elim d as (λ x. Polled) [
          | reset ↦ nothing
          | missing ↦ failed
          | delta ds ↦ sampled (record { interval = (at - before) / 2; counters = ds })
        ])
    go reset l = l
    go missing l = l
    go (delta ds) l = (l, refl)

-- A reading is reported as a sample exactly when there is a reading before it in which each counter is
-- found and none is greater: each of the sample's counters is then the difference, and its interval the
-- time between the two. A poll without a reading before says nothing, and so does one with a counter
-- that went back; one with a counter that is new raises, whichever comes first. The reading now is the
-- next one's baseline, unless the poll raised, and after a reading that failed there is none.
pub poll-IsSampled :
    (start end : ℕ) (current : Counters) (s : Sampler)
    → let (result, after) = poll start end (some current) s in
      IsSampled s.previous current (start + end) result
      × (after.previous ≡ (if is_failed result then s.previous else some (current, start + end)))
      × ((poll start end none s).1.previous ≡ none)
unfolding poll
poll-IsSampled start end current s = (
  result_of-IsSampled current (start + end) s.previous,
  previous_if (is_failed (result_of current (start + end) s.previous)),
  refl,
)
  where
    previous_if :
        (b : Bool)
        → (if b then s else record { previous = some (current, start + end) }).previous
          ≡ (if b then s.previous else some (current, start + end))
    previous_if true = refl
    previous_if false = refl
