-- ===== src/Common/Keys.antt =====
-- Equality tests as an interface, for the keys of dictionaries and sets.
use Prim.Native.Nat.{ℕ}
use Prim.Native.String.{String}
use text.Mathlib.Text.{◌==◌ as str_eq}
use text.Mathlib.TextEquality.{eq_iff}
use mathlib.Core.Path.{◌≡◌, ap, sym, ◌∙◌}
use mathlib.Core.Logic.{◌↔◌}
use mathlib.Core.Bool.{Bool, true, false, ◌&&◌}
use mathlib.Core.List.{List, [], ◌∷◌}
use mathlib.Core.Option.{Option, none, some}
use native.Mathlib.Omega.{arith}
use act_sim_scope_infra.Common.Tests.{◌==◌ as nat_beq, ==_iff}

pub record Key {ℓ} (K : Type ℓ) : Type ℓ where
  pub same : K → K → Bool
  pub same_iff : (j k : K) → (same j k ≡ true) ↔ (j ≡ k)

instance abbrev pub string_key : Key String
string_key = record { same = str_eq; same_iff = eq_iff }

instance abbrev pub nat_key : Key ℕ
nat_key = record { same = nat_beq; same_iff = ==_iff }

abbrev pub pair_same {ℓ κ} : {A : Type ℓ} {B : Type κ} → Key A → Key B → A × B → A × B → Bool
pair_same ea eb (a, b) (a', b') = ea.same a a' && eb.same b b'

pub pair_same_iff {ℓ κ} :
    {A : Type ℓ} {B : Type κ} (ea : Key A) (eb : Key B) (x y : A × B)
    → (pair_same ea eb x y ≡ true) ↔ (x ≡ y)
pair_same_iff ea eb (a, b) (a', b') = (
  (λ h. ground (arith, ea.same_iff a a', eb.same_iff b b')),
  λ h. ground (arith, ea.same_iff a a', eb.same_iff b b', ap (λ p. p.0) h, ap (λ p. p.1) h),
)

instance abbrev pub pair_key {ℓ κ} :
    {A : Type ℓ} {B : Type κ} ⦃ea : Key A⦄ ⦃eb : Key B⦄ → Key (A × B)
pair_key ⦃ea⦄ ⦃eb⦄ = record { same = pair_same ea eb; same_iff = pair_same_iff ea eb }

module _ {ℓ} {A : Type ℓ} (e : Key A) where
  abbrev pub list_same : List A → List A → Bool
  list_same [] [] = true
  list_same [] (y ∷ ys) = false
  list_same (x ∷ xs) [] = false
  list_same (x ∷ xs) (y ∷ ys) = e.same x y && list_same xs ys

  pub list_same_iff : (xs ys : List A) → (list_same xs ys ≡ true) ↔ (xs ≡ ys)
  list_same_iff [] [] = ground arith
  list_same_iff [] (y ∷ ys) = ground arith
  list_same_iff (x ∷ xs) [] = ground arith
  list_same_iff (x ∷ xs) (y ∷ ys) = ground (arith, e.same_iff x y, list_same_iff xs ys)

instance abbrev pub list_key {ℓ} : {A : Type ℓ} ⦃e : Key A⦄ → Key (List A)
list_key ⦃e⦄ = record { same = list_same e; same_iff = list_same_iff e }

abbrev pub bool_same : Bool → Bool → Bool
bool_same true b = b
bool_same false true = false
bool_same false false = true

pub bool_same_iff : (a b : Bool) → (bool_same a b ≡ true) ↔ (a ≡ b)
bool_same_iff true b = ground arith
bool_same_iff false true = ground arith
bool_same_iff false false = ground arith

instance abbrev pub bool_key : Key Bool
bool_key = record { same = bool_same; same_iff = bool_same_iff }

module _ {ℓ} {A : Type ℓ} (e : Key A) where
  abbrev pub option_same : Option A → Option A → Bool
  option_same none none = true
  option_same none (some b) = false
  option_same (some a) none = false
  option_same (some a) (some b) = e.same a b

  pub option_same_iff : (o p : Option A) → (option_same o p ≡ true) ↔ (o ≡ p)
  option_same_iff none none = ground arith
  option_same_iff none (some b) = ground arith
  option_same_iff (some a) none = ground arith
  option_same_iff (some a) (some b) = ground (arith, e.same_iff a b)

instance abbrev pub option_key {ℓ} : {A : Type ℓ} ⦃e : Key A⦄ → Key (Option A)
option_key ⦃e⦄ = record { same = option_same e; same_iff = option_same_iff e }

-- A record is compared by its fields, read as a tuple.
abbrev pub key_by {ℓ κ} :
    {A : Type ℓ} {B : Type κ} (to : A → B) (from : B → A)
    → ((x : A) → from (to x) ≡ x)
    → ⦃e : Key B⦄ → Key A
key_by to from back ⦃e⦄ = record {
  same = λ x y. e.same (to x) (to y);
  same_iff = λ x y. (
    (λ h. sym (back x) ∙ ap from ((e.same_iff (to x) (to y)).0 h) ∙ back y),
    λ h. (e.same_iff (to x) (to y)).1 (ap to h),
  );
}
