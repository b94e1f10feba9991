-- ===== src/Wire/Bytes/Slices.antt =====
-- Slices of slices, and slices side by side.
use act_sim_scope_infra.Common.{
  ℕ, zero, suc, ◌+◌, ◌-◌, ◌≤◌, ◌≡◌, refl, ap, sym, ◌∙◌, [], ◌∷◌, ◌++◌, take, drop, length, arith,
}
use act_sim_scope_infra.Wire.Bytes.{Bytes, slice}

take_eq : (m n : ℕ) (l : Bytes) → m ≡ n → take m l ≡ take n l
take_eq m n l e = ap (λ k. take k l) e

drop_eq : (m n : ℕ) (l : Bytes) → m ≡ n → drop m l ≡ drop n l
drop_eq m n l e = ap (λ k. drop k l) e

take_nil : (m : ℕ) (l : Bytes) → l ≡ [] → take m l ≡ []
take_nil zero l e = refl
take_nil (suc m) [] e = refl
take_nil (suc m) (x ∷ l) e = absurd (cc e)

drop_nil : (m : ℕ) (l : Bytes) → l ≡ [] → drop m l ≡ []
drop_nil zero l e = e
drop_nil (suc m) [] e = refl
drop_nil (suc m) (x ∷ l) e = absurd (cc e)

drop-take : (c n : ℕ) (l : Bytes) → drop c (take n l) ≡ take (n - c) (drop c l)
drop-take zero n l = take_eq n (n - 0) l (omega arith)
drop-take (suc c) zero l = sym (take_eq (0 - suc c) 0 (drop (suc c) l) (omega arith))
drop-take (suc c) (suc n) [] = sym (take_nil (suc n - suc c) [] refl)
drop-take (suc c) (suc n) (x ∷ l) =
    drop-take c n l ∙ take_eq (n - c) (suc n - suc c) (drop c l) (omega arith)

take-take : (m n : ℕ) (l : Bytes) → m ≤ n → take m (take n l) ≡ take m l
take-take zero n l h = refl
take-take (suc m) zero l h = absurd (omega (arith, h))
take-take (suc m) (suc n) [] h = refl
take-take (suc m) (suc n) (x ∷ l) h = ap (λ t. x ∷ t) (take-take m n l (omega (arith, h)))

drop-drop : (c a : ℕ) (l : Bytes) → drop c (drop a l) ≡ drop (a + c) l
drop-drop c zero l = drop_eq c (0 + c) l (omega arith)
drop-drop c (suc a) [] = drop_nil c [] refl ∙ sym (drop_nil (suc a + c) [] refl)
drop-drop c (suc a) (x ∷ l) =
    drop-drop c a l ∙ sym (drop_eq (suc a + c) (suc (a + c)) (x ∷ l) (omega arith))

-- A slice within a slice.
pub slice-slice :
    (l : Bytes) (a b c d : ℕ) → d ≤ b - a → slice (slice l a b) c d ≡ slice l (a + c) (a + d)
unfolding slice
slice-slice l a b c d h =
    ap (take (d - c)) (drop-take c (b - a) (drop a l))
    ∙ take-take (d - c) (b - a - c) (drop c (drop a l)) (omega (arith, h))
    ∙ ap (take (d - c)) (drop-drop c a l)
    ∙ take_eq (d - c) ((a + d) - (a + c)) (drop (a + c) l) (omega arith)

take-add : (m n : ℕ) (l : Bytes) → take (m + n) l ≡ take m l ++ take n (drop m l)
take-add zero n l = take_eq (0 + n) n l (omega arith)
take-add (suc m) n [] = take_nil (suc m + n) [] refl ∙ sym (take_nil n [] refl)
take-add (suc m) n (x ∷ l) =
    take_eq (suc m + n) (suc (m + n)) (x ∷ l) (omega arith) ∙ ap (λ t. x ∷ t) (take-add m n l)

-- One slice, and the next one behind it.
pub slice-append :
    (l : Bytes) (a b c : ℕ) → a ≤ b → b ≤ c → slice l a b ++ slice l b c ≡ slice l a c
unfolding slice
slice-append l a b c h k =
    ap (λ d. take (b - a) (drop a l) ++ take (c - b) d)
      (sym (drop-drop (b - a) a l ∙ drop_eq (a + (b - a)) b l (omega (arith, h))))
    ∙ sym (take-add (b - a) (c - b) (drop a l))
    ∙ take_eq ((b - a) + (c - b)) (c - a) (drop a l) (omega (arith, h, k))

-- A slice of all.
pub slice_all : (l : Bytes) (n : ℕ) → length l ≤ n → slice l 0 n ≡ l
unfolding slice
slice_all [] n h = take_nil (n - 0) [] refl
slice_all (x ∷ l) zero h = absurd (omega (arith, h))
slice_all (x ∷ l) (suc n) h =
    take_eq (suc n - 0) (suc (n - 0)) (x ∷ l) (omega arith)
    ∙ ap (λ t. x ∷ t) (slice_all l n (omega (arith, h)))

-- A slice of nothing.
pub slice_none : (l : Bytes) (a : ℕ) → slice l a a ≡ []
unfolding slice
slice_none l a = take_eq (a - a) 0 (drop a l) (omega arith)

pub take_all : (l : Bytes) (n : ℕ) → length l ≡ n → take n l ≡ l
unfolding slice
take_all l n h = take_eq n (n - 0) l (omega arith) ∙ slice_all l n (omega (arith, h))
