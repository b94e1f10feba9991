-- ===== src/Wire/Submessages/Outcome.antt =====
-- Postconditions of the readers: a `ValueError`, or a result with a property.
use act_sim_scope_infra.Common.{ℕ, ◌+◌, ◌≤◌, ◌≡◌, refl, Bool, true, false, length}
use act_sim_scope_infra.Wire.Bytes.{
  Bytes, Error, struct_error, Result, ok, err, ◌>>=◌, ◌>>◌, raise_if, is_ok, read_u16, read_u32,
  read_byte, read_byte-is_ok, read_u16-is_ok, read_u32-is_ok,
}

abbrev pub IsValueError : Error → Type 0
IsValueError struct_error = ⊥
IsValueError other = Unit

abbrev pub Holds {ℓ} : {A : Type ℓ} → (A → Type 0) → Result A → Type 0
Holds P (ok a) = P a
Holds P (err e) = IsValueError e

pub Holds-bind {ℓ κ} :
    {A : Type ℓ} {B : Type κ} (Q : A → Type 0) (P : B → Type 0) (m : Result A) (f : A → Result B)
    → Holds Q m
    → ((a : A) → Q a → Holds P (f a))
    → Holds P (m >>= f)
Holds-bind Q P (ok a) f h k = k a h
Holds-bind Q P (err e) f h k = h

Holds-is_ok {ℓ} : {A : Type ℓ} (m : Result A) → is_ok m ≡ true → Holds (λ a. Unit) m
Holds-is_ok (ok a) h = tt
Holds-is_ok (err e) h = cc

module _ {ℓ} {B : Type ℓ} (P : B → Type 0) where
  -- A guard: behind it its test is false.
  pub Holds-raise_if :
      (b : Bool) (e : Error) (k : Result B)
      → IsValueError e
      → (b ≡ false → Holds P k)
      → Holds P (raise_if b e >> k)
  Holds-raise_if true e k v h = v
  Holds-raise_if false e k v h = h refl

  -- A read whose bytes are there.
  pub Holds-read_u16 :
      (little : Bool) (l : Bytes) (i : ℕ) (f : ℕ → Result B)
      → i + 2 ≤ length l
      → ((n : ℕ) → Holds P (f n))
      → Holds P (read_u16 little l i >>= f)
  Holds-read_u16 little l i f h k =
      Holds-bind (λ a. Unit) P (read_u16 little l i) f (Holds-is_ok _ (read_u16-is_ok little l i h))
        (λ n _. k n)

  pub Holds-read_u32 :
      (little : Bool) (l : Bytes) (i : ℕ) (f : ℕ → Result B)
      → i + 4 ≤ length l
      → ((n : ℕ) → Holds P (f n))
      → Holds P (read_u32 little l i >>= f)
  Holds-read_u32 little l i f h k =
      Holds-bind (λ a. Unit) P (read_u32 little l i) f (Holds-is_ok _ (read_u32-is_ok little l i h))
        (λ n _. k n)

  pub Holds-read_byte :
      (l : Bytes) (i : ℕ) (f : ℕ → Result B)
      → i + 1 ≤ length l
      → ((n : ℕ) → Holds P (f n))
      → Holds P (read_byte l i >>= f)
  Holds-read_byte l i f h k =
      Holds-bind (λ a. Unit) P (read_byte l i) f (Holds-is_ok _ (read_byte-is_ok l i h))
        (λ n _. k n)
