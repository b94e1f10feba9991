-- ===== src/Common/Sort.antt =====
-- `sorted`, as the stable insertion sort by a strict order, and how tuples and texts are ordered.
use Prim.Native.Nat.{ℕ, Ordering, ◌+◌}
use Prim.Native.String.{String, compare as compare_string}
use mathlib.Core.Path.{◌≡◌, refl}
use mathlib.Core.Bool.{Bool, true, false, ◌||◌}
use mathlib.Core.List.{List, [], ◌∷◌}
use native.Mathlib.Omega.{arith}
use act_sim_scope_infra.Common.Tests.{if◌then◌else◌}
use act_sim_scope_infra.Common.Lists.{length, keep, any}

-- The first answer that is not "equal": how tuples compare.
abbrev pub and_then : Ordering → Ordering → Ordering
and_then Ordering.lt next = Ordering.lt
and_then Ordering.eq next = next
and_then Ordering.gt next = Ordering.gt

abbrev pub is_lt : Ordering → Bool
is_lt Ordering.lt = true
is_lt Ordering.eq = false
is_lt Ordering.gt = false

abbrev pub string_lt : String → String → Bool
string_lt s t = is_lt (compare_string s t)

module _ {ℓ} {A : Type ℓ} (lt : A → A → Bool) where
  abbrev pub insert_sorted : A → List A → List A
  insert_sorted x [] = x ∷ []
  insert_sorted x (y ∷ ys) =
      let rest = insert_sorted x ys in if lt y x then y ∷ rest else x ∷ y ∷ ys

  abbrev pub sorted : List A → List A
  sorted [] = []
  sorted (x ∷ xs) = insert_sorted x (sorted xs)

-- A sum over a list.
abbrev pub sum_of {ℓ} : {A : Type ℓ} → (A → ℕ) → List A → ℕ
sum_of f [] = 0
sum_of f (x ∷ xs) = f x + sum_of f xs

module _ {ℓ} {A : Type ℓ} (lt : A → A → Bool) (f : A → ℕ) where
  sum_of-insert_sorted :
      (x : A) (ys : List A) → sum_of f (insert_sorted lt x ys) ≡ f x + sum_of f ys
  sum_of-insert_sorted x [] = refl
  sum_of-insert_sorted x (y ∷ ys) = ground (arith, sum_of-insert_sorted x ys)

  pub sum_of-sorted : (xs : List A) → sum_of f (sorted lt xs) ≡ sum_of f xs
  sum_of-sorted [] = refl
  sum_of-sorted (x ∷ xs) = omega (arith, sum_of-insert_sorted x (sorted lt xs), sum_of-sorted xs)

module _ {ℓ} {A : Type ℓ} (lt : A → A → Bool) (p : A → Bool) where
  any-insert_sorted : (x : A) (ys : List A) → any p (insert_sorted lt x ys) ≡ (p x || any p ys)
  any-insert_sorted x [] = refl
  any-insert_sorted x (y ∷ ys) = ground (arith, any-insert_sorted x ys)

  pub any-sorted : (xs : List A) → any p (sorted lt xs) ≡ any p xs
  any-sorted [] = refl
  any-sorted (x ∷ xs) = ground (arith, any-insert_sorted x (sorted lt xs), any-sorted xs)

  length-keep-insert_sorted :
      (x : A) (ys : List A)
      → length (keep p (insert_sorted lt x ys)) ≡ (if p x then 1 else 0) + length (keep p ys)
  length-keep-insert_sorted x [] = ground arith
  length-keep-insert_sorted x (y ∷ ys) = ground (arith, length-keep-insert_sorted x ys)

  pub length-keep-sorted : (xs : List A) → length (keep p (sorted lt xs)) ≡ length (keep p xs)
  length-keep-sorted [] = refl
  length-keep-sorted (x ∷ xs) =
      ground (arith, length-keep-insert_sorted x (sorted lt xs), length-keep-sorted xs)
