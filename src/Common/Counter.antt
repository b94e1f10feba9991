-- ===== src/Common/Counter.antt =====
-- `collections.Counter` over any type of keys with a test.
use Prim.Native.Nat.{ℕ, ◌+◌, ◌≤◌}
use mathlib.Core.Path.{◌≡◌}
use mathlib.Core.List.{List, [], ◌∷◌}
use native.Mathlib.Omega.{arith}
use act_sim_scope_infra.Common.Tests.{if◌then◌else◌}
use act_sim_scope_infra.Common.Keys.{Key}
use act_sim_scope_infra.Common.Lists.{length}
use act_sim_scope_infra.Common.Dicts.{
  Dict, insert, erase, get_default, Unique, lookup-insert, insert-Unique, lookup-erase, sum_values,
  sum_values-insert,
}

module _ {ℓ} {K : Type ℓ} ⦃e : Key K⦄ where
  -- `counter.update(ks)`
  abbrev pub tally : List K → Dict K ℕ → Dict K ℕ
  tally [] d = d
  tally (k ∷ ks) d = tally ks (insert k (get_default k 0 d + 1) d)

  -- How often a key stands in a list.
  abbrev pub occurrences : K → List K → ℕ
  occurrences k [] = 0
  occurrences k (j ∷ js) = (if e.same j k then 1 else 0) + occurrences k js

  get_default-bump :
      (j k : K) (d : Dict K ℕ)
      → get_default k 0 (insert j (get_default j 0 d + 1) d)
        ≡ get_default k 0 d + (if e.same j k then 1 else 0)
  get_default-bump j k d =
      ground (arith, e.same_iff j k, lookup-insert j k (get_default j 0 d + 1) d)

  pub get_default-tally :
      (ks : List K) (k : K) (d : Dict K ℕ)
      → get_default k 0 (tally ks d) ≡ get_default k 0 d + occurrences k ks
  get_default-tally [] k d = omega arith
  get_default-tally (j ∷ js) k d =
      let d' = insert j (get_default j 0 d + 1) d in
      omega (arith, get_default-tally js k d', get_default-bump j k d)

  pub tally-Unique : (ks : List K) (d : Dict K ℕ) → Unique d → Unique (tally ks d)
  tally-Unique [] d u = u
  tally-Unique (k ∷ ks) d u =
      tally-Unique ks (insert k (get_default k 0 d + 1) d)
        (insert-Unique k (get_default k 0 d + 1) d u)

  sum-bump :
      (k : K) (d : Dict K ℕ)
      → sum_values (λ n. n) (insert k (get_default k 0 d + 1) d) ≡ sum_values (λ n. n) d + 1
  sum-bump k d = ground (arith, sum_values-insert (λ n. n) k (get_default k 0 d + 1) d)

  pub sum-tally :
      (ks : List K) (d : Dict K ℕ)
      → sum_values (λ n. n) (tally ks d) ≡ sum_values (λ n. n) d + length ks
  sum-tally [] d = omega arith
  sum-tally (k ∷ ks) d =
      let d' = insert k (get_default k 0 d + 1) d in omega (arith, sum-tally ks d', sum-bump k d)

  -- A key that was counted once is taken out.
  pub erase-single :
      (j k : K) (d : Dict K ℕ) (expected left : ℕ)
      → Unique d
      → get_default j 0 d ≡ 1
      → get_default k 0 (erase j d) ≡ expected + left
      → expected ≤ 1
      → (get_default k 0 d ≡ (if e.same j k then 1 else 0) + expected + left)
        × ((if e.same j k then 1 else 0) + expected ≤ 1)
  erase-single j k d expected left u one rest l =
      ground (arith, e.same_iff j k, lookup-erase j k d u, one, rest, l)
