-- ===== src/Common/Numbered.antt =====
-- Dicts whose keys are numbers from 1 on.
use Prim.Native.Nat.{ℕ, zero, suc, ◌+◌, ◌≤◌}
use mathlib.Core.Path.{◌≡◌, refl}
use mathlib.Core.Bool.{true}
use mathlib.Core.Option.{none}
use mathlib.Core.List.{[], ◌∷◌}
use native.Mathlib.Omega.{arith}
use act_sim_scope_infra.Common.Tests.{if◌then◌else◌}
use act_sim_scope_infra.Common.Keys.{nat_key}
use act_sim_scope_infra.Common.Dicts.{Dict, lookup, contains, insert, Unique}
use act_sim_scope_infra.Common.Lists.{length}

-- All keys are from 1 to n.
abbrev pub Within {ℓ} : {V : Type ℓ} → ℕ → Dict ℕ V → Type 0
Within n [] = Unit
Within n ((k, v) ∷ d) = (1 ≤ k) × (k ≤ n) × Within n d

-- How many of the numbers from 1 to n are keys.
abbrev hits {ℓ} : {V : Type ℓ} → ℕ → Dict ℕ V → ℕ
hits zero d = 0
hits (suc n) d = hits n d + (if contains (suc n) d then 1 else 0)

module _ {ℓ} {V : Type ℓ} where
  hits-cons_above : (n k : ℕ) (v : V) (d : Dict ℕ V) → suc n ≤ k → hits n ((k, v) ∷ d) ≡ hits n d
  hits-cons_above zero k v d h = refl
  hits-cons_above (suc n) k v d h = ground (arith, hits-cons_above n k v d)

  -- A new key is one more.
  hits-cons :
      (n k : ℕ) (v : V) (d : Dict ℕ V)
      → 1 ≤ k
      → k ≤ n
      → lookup k d ≡ none
      → hits n ((k, v) ∷ d) ≡ hits n d + 1
  hits-cons zero k v d low high new = absurd (omega (arith, low, high))
  hits-cons (suc n) k v d low high new =
      ground (arith, hits-cons n k v d low, hits-cons_above n k v d)

  length-le-hits : (n : ℕ) (d : Dict ℕ V) → Within n d → Unique d → length d ≤ hits n d
  length-le-hits n [] w u = omega arith
  length-le-hits n ((k, v) ∷ d) w u =
      omega (arith, hits-cons n k v d w.0 w.1 u.0, length-le-hits n d w.2 u.1)

  hits_le : (n : ℕ) (d : Dict ℕ V) → hits n d ≤ n
  hits_le zero d = omega arith
  hits_le (suc n) d = ground (arith, hits_le n d)

  hits-contains : (n k : ℕ) (d : Dict ℕ V) → n ≤ hits n d → 1 ≤ k → k ≤ n → contains k d ≡ true
  hits-contains zero k d full low high = absurd (omega (arith, low, high))
  hits-contains (suc n) k d full low high = ground (arith, hits_le n d, hits-contains n k d)

  -- With as many keys as there are numbers, every number is a key.
  pub contains_all :
      (n k : ℕ) (d : Dict ℕ V)
      → Within n d
      → Unique d
      → length d ≡ n
      → 1 ≤ k
      → k ≤ n
      → contains k d ≡ true
  contains_all n k d w u e low high =
      hits-contains n k d (omega (arith, length-le-hits n d w u, e)) low high

  pub length-Within : (n : ℕ) (d : Dict ℕ V) → Within n d → Unique d → length d ≤ n
  length-Within n d w u = omega (arith, length-le-hits n d w u, hits_le n d)

  pub insert-Within :
      (n k : ℕ) (v : V) (d : Dict ℕ V) → 1 ≤ k → k ≤ n → Within n d → Within n (insert k v d)
  insert-Within n k v [] low high w = (low, high, tt)
  insert-Within n k v ((j, u) ∷ d) low high w = ground (arith, insert-Within n k v d low high w.2)
