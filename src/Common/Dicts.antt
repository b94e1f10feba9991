-- ===== src/Common/Dicts.antt =====
-- A Python dict as an association list in insertion order, over any type of keys with a test.
use Prim.Native.Nat.{ℕ, ◌+◌}
use mathlib.Core.Path.{◌≡◌, refl}
use mathlib.Core.Bool.{Bool}
use mathlib.Core.Option.{Option, none, some}
use mathlib.Core.List.{List, [], ◌∷◌}
use mathlib.Core.Logic.{◌≢◌}
use native.Mathlib.Omega.{arith}
use act_sim_scope_infra.Common.Tests.{if◌then◌else◌, is_some}
use act_sim_scope_infra.Common.Keys.{Key}

abbrev pub Dict {ℓ κ} : Type ℓ → Type κ → Type (ℓ ⊔ κ)
Dict K V = List (K × V)

module _ {ℓ κ} {K : Type ℓ} {V : Type κ} ⦃e : Key K⦄ where
  -- `d.get(k)`
  abbrev pub lookup : K → Dict K V → Option V
  lookup k [] = none
  lookup k ((j, v) ∷ d) = if e.same j k then some v else lookup k d

  -- `k in d`
  abbrev pub contains : K → Dict K V → Bool
  contains k d = is_some (lookup k d)

  -- `d[k] = v`
  abbrev pub insert : K → V → Dict K V → Dict K V
  insert k v [] = (k, v) ∷ []
  insert k v ((j, w) ∷ d) = if e.same j k then (j, v) ∷ d else (j, w) ∷ insert k v d

  -- `del d[k]`, `d.pop(k, ...)`
  abbrev pub erase : K → Dict K V → Dict K V
  erase k [] = []
  erase k ((j, w) ∷ d) = if e.same j k then d else (j, w) ∷ erase k d

  -- `d.setdefault(k, v)`, as the value that it returns
  abbrev pub get_default : K → V → Dict K V → V
  get_default k v d = elim (lookup k d) [ none ↦ v | some w ↦ w ]

  -- No key stands twice, as in every Python dict.
  abbrev pub Unique : Dict K V → Type κ
  Unique [] = Unit
  Unique ((k, v) ∷ d) = (lookup k d ≡ none) × Unique d

  pub lookup-insert :
      (k j : K) (v : V) (d : Dict K V)
      → lookup j (insert k v d) ≡ (if e.same k j then some v else lookup j d)
  lookup-insert k j v [] = refl
  lookup-insert k j v ((i, w) ∷ d) =
      ground (arith, e.same_iff k j, e.same_iff i k, e.same_iff i j, lookup-insert k j v d)

  pub lookup-insert_self : (k : K) (v : V) (d : Dict K V) → lookup k (insert k v d) ≡ some v
  lookup-insert_self k v d = ground (arith, e.same_iff k k, lookup-insert k k v d)

  pub get_default-insert :
      (k j : K) (v fresh : V) (d : Dict K V)
      → get_default j fresh (insert k v d) ≡ (if e.same k j then v else get_default j fresh d)
  get_default-insert k j v fresh d = ground (arith, lookup-insert k j v d)

  -- `d.setdefault(k, fresh)` changes nothing that is read with the same default.
  pub get_default-insert_self :
      (k j : K) (fresh : V) (d : Dict K V)
      → get_default j fresh (insert k (get_default k fresh d) d) ≡ get_default j fresh d
  get_default-insert_self k j fresh d =
      ground (arith, e.same_iff k j, lookup-insert k j (get_default k fresh d) d)

  pub lookup-erase_ne : (k j : K) (d : Dict K V) → k ≢ j → lookup j (erase k d) ≡ lookup j d
  lookup-erase_ne k j [] h = refl
  lookup-erase_ne k j ((i, w) ∷ d) h =
      ground (arith, e.same_iff i k, e.same_iff i j, lookup-erase_ne k j d h)

  pub insert-Unique : (k : K) (v : V) (d : Dict K V) → Unique d → Unique (insert k v d)
  insert-Unique k v [] u = (refl, tt)
  insert-Unique k v ((j, w) ∷ d) u =
      ground (arith, e.same_iff j k, e.same_iff k j, lookup-insert k j v d, insert-Unique k v d u.1)

  pub lookup-erase_self : (k : K) (d : Dict K V) → Unique d → lookup k (erase k d) ≡ none
  lookup-erase_self k [] u = refl
  lookup-erase_self k ((j, w) ∷ d) u = ground (arith, e.same_iff j k, lookup-erase_self k d u.1)

  pub lookup-erase :
      (k j : K) (d : Dict K V)
      → Unique d
      → lookup j (erase k d) ≡ (if e.same k j then none else lookup j d)
  lookup-erase k j [] u = ground arith
  lookup-erase k j ((i, w) ∷ d) u =
      ground (arith, e.same_iff k j, e.same_iff i k, e.same_iff i j, lookup-erase k j d u.1)

  pub erase-Unique : (k : K) (d : Dict K V) → Unique d → Unique (erase k d)
  erase-Unique k [] u = tt
  erase-Unique k ((j, w) ∷ d) u =
      ground (arith, e.same_iff j k, e.same_iff k j, lookup-erase_ne k j d, erase-Unique k d u.1)

module _ {ℓ κ} {K : Type ℓ} {V : Type κ} ⦃e : Key K⦄ where
  -- What stands in the one dict stands in the other.
  abbrev pub AllHeld : Dict K V → Dict K V → Type κ
  AllHeld [] d = Unit
  AllHeld ((k, v) ∷ rest) d = (lookup k d ≡ some v) × AllHeld rest d

  -- A key outside it is taken out, or put in front.
  pub AllHeld-erase :
      (k : K) (rest d : Dict K V)
      → Unique d
      → lookup k rest ≡ none
      → AllHeld rest d
      → AllHeld rest (erase k d)
  AllHeld-erase k [] d u n h = tt
  AllHeld-erase k ((j, w) ∷ rest) d u n h =
      ground
        (arith, e.same_iff j k, e.same_iff k j, lookup-erase k j d u, AllHeld-erase k rest d u, h)

  AllHeld-cons :
      (k : K) (v : V) (rest d : Dict K V)
      → lookup k rest ≡ none
      → AllHeld rest d
      → AllHeld rest ((k, v) ∷ d)
  AllHeld-cons k v [] d n h = tt
  AllHeld-cons k v ((j, w) ∷ rest) d n h =
      ground (arith, e.same_iff j k, e.same_iff k j, AllHeld-cons k v rest d, h)

  pub AllHeld-self : (d : Dict K V) → Unique d → AllHeld d d
  AllHeld-self [] u = tt
  AllHeld-self ((k, v) ∷ d) u =
      (ground (arith, e.same_iff k k), AllHeld-cons k v d d u.0 (AllHeld-self d u.1))

-- A measure of what a key holds; nothing counts 0.
abbrev pub measure {ℓ} : {V : Type ℓ} → (V → ℕ) → Option V → ℕ
measure f none = 0
measure f (some v) = f v

-- The sum of a measure over the values.
module _ {ℓ κ} {K : Type ℓ} {V : Type κ} (f : V → ℕ) where
  abbrev pub sum_values : Dict K V → ℕ
  sum_values [] = 0
  sum_values ((k, v) ∷ d) = f v + sum_values d

module _ {ℓ κ} {K : Type ℓ} {V : Type κ} ⦃e : Key K⦄ (f : V → ℕ) where
  -- What stood at the key is replaced, and the rest is as it was.
  pub sum_values-insert :
      (k : K) (v : V) (d : Dict K V)
      → sum_values f (insert k v d) + measure f (lookup k d) ≡ sum_values f d + f v
  sum_values-insert k v [] = omega arith
  sum_values-insert k v ((j, w) ∷ d) = ground (arith, sum_values-insert k v d)

  pub sum_values-erase :
      (k : K) (d : Dict K V) → sum_values f (erase k d) + measure f (lookup k d) ≡ sum_values f d
  sum_values-erase k [] = omega arith
  sum_values-erase k ((j, w) ∷ d) = ground (arith, sum_values-erase k d)
