-- ===== src/Wire/SequenceRanges/Search.antt =====
-- The binary search of `SequenceRanges` against a count from the left.
use act_sim_scope_infra.Common.{
  ℕ, zero, suc, ◌+◌, ◌/◌, ◌≤◌, ◌<◌, ◌≡◌, refl, ◌∙◌, [], ◌∷◌, true, inl, inr, ltb, leb,
  if◌then◌else◌, length, get_elem?, arith, Bool-cases,
}
use act_sim_scope_infra.Wire.SequenceRanges.{Ranges, above, bisect_loop, bisect_right}

-- The ranges begin at `n` or later, none is empty, and between two of them a number is missing.
abbrev pub Separated : ℕ → Ranges → Type 0
Separated n [] = Unit
Separated n ((a, b) ∷ l) = (n ≤ a) × (a ≤ b) × Separated (b + 2) l

-- How many ranges begin at or before `s`, counted until the first that does not.
abbrev pub rank : ℕ → Ranges → ℕ
rank s [] = 0
rank s ((a, b) ∷ l) = if leb a s then suc (rank s l) else 0

above_late : (n s : ℕ) (l : Ranges) (i : ℕ) → Separated n l → s < n → above s (get_elem? l i) ≡ true
above_late n s [] i v h = refl
above_late n s ((a, b) ∷ l) zero v h = ground arith
above_late n s ((a, b) ∷ l) (suc i) v h = above_late (b + 2) s l i v.2 (omega arith)

above-rank :
    (n s : ℕ) (l : Ranges) (i : ℕ)
    → Separated n l
    → i < length l
    → above s (get_elem? l i) ≡ leb (rank s l) i
above-rank n s [] i v h = elim h [ ]
above-rank n s ((a, b) ∷ l) zero v h = ground arith
above-rank n s ((a, b) ∷ l) (suc i) v h = elim (Bool-cases (leb a s)) [
  | inl e ↦ rw e (above-rank (b + 2) s l i v.2 (omega arith) ∙ ground arith)
  | inr e ↦ rw e (above_late (b + 2) s l i v.2 (ground arith) ∙ ground arith)
]

rank-le-length : (s : ℕ) (l : Ranges) → rank s l ≤ length l
rank-le-length s [] = omega arith
rank-le-length s ((a, b) ∷ l) = ground (arith, rank-le-length s l)

bisect_loop-eq-rank :
    (f n s lo hi : ℕ) (l : Ranges)
    → Separated n l
    → hi ≤ lo + f
    → lo ≤ rank s l
    → rank s l ≤ hi
    → hi ≤ length l
    → bisect_loop f l s lo hi ≡ rank s l
unfolding bisect_loop
bisect_loop-eq-rank zero n s lo hi l v fuel p q r = omega arith
bisect_loop-eq-rank (suc f) n s lo hi l v fuel p q r = elim (Bool-cases (ltb lo hi)) [
  | inr e ↦ rw e (ground arith)
  | inl e ↦ elim (Bool-cases (above s (get_elem? l ((lo + hi) / 2)))) [
    | inl c ↦
        rw (e, c)
          (bisect_loop-eq-rank f n s lo ((lo + hi) / 2) l v (ground arith) p
            (ground (arith, above-rank n s l ((lo + hi) / 2))) (ground arith))
    | inr c ↦
        rw (e, c)
          (bisect_loop-eq-rank f n s ((lo + hi) / 2 + 1) hi l v (ground arith)
            (ground (arith, above-rank n s l ((lo + hi) / 2))) q r)
  ]
]

-- The search, on its fuel of one step for each range, returns the count of the ranges that begin at or
-- before the sequence number.
pub bisect_right-eq-rank : (n s : ℕ) (l : Ranges) → Separated n l → bisect_right l s ≡ rank s l
unfolding bisect_right
bisect_right-eq-rank n s l v =
    bisect_loop-eq-rank (length l) n s 0 (length l) l v (omega arith) (omega arith)
      (rank-le-length s l) (omega arith)
