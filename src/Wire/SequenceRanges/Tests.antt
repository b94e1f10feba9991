-- ===== src/Wire/SequenceRanges/Tests.antt =====
-- `SequenceRanges` on small inputs, and its theorems at them.
use act_sim_scope_infra.Common.{◌≡◌, refl, [], ◌∷◌, true, not, ◌||◌, ◌==◌, arith, any}
use act_sim_scope_infra.Wire.SequenceRanges.{Ranges, add, contains}
use act_sim_scope_infra.Wire.SequenceRanges.Members.{
  IsValid, add_lem, record_all, record_all-contains,
}

abbrev seen : Ranges
seen = (1, 3) ∷ (5, 6) ∷ (9, 9) ∷ []

add_merges : add seen 4 ≡ ((1, 6) ∷ (9, 9) ∷ [], true)
unfolding add
add_merges = refl

add_lem_example :
    IsValid (add seen 4).0
    × ((add seen 4).1 ≡ not (contains seen 4))
    × (contains (add seen 4).0 6 ≡ (6 == 4 || contains seen 6))
add_lem_example = add_lem seen 4 6 (omega arith)

record_all-contains_example :
    contains (record_all (7 ∷ 5 ∷ 6 ∷ 5 ∷ []) []) 6 ≡ any (λ s. 6 == s) (7 ∷ 5 ∷ 6 ∷ 5 ∷ [])
record_all-contains_example = record_all-contains (7 ∷ 5 ∷ 6 ∷ 5 ∷ []) 6
