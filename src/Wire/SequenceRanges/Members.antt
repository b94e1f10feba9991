-- ===== src/Wire/SequenceRanges/Members.antt =====
-- What `add` and `contains` of `SequenceRanges` do to the set of the numbers seen.
use act_sim_scope_infra.Common.{
  List, any, ℕ, suc, ◌+◌, ◌≤◌, ◌<◌, ◌≡◌, refl, ◌∙◌, ap, sym, Bool, true, false, not, ◌&&◌, ◌||◌, [],
  ◌∷◌, inl, inr, ltb, leb, ◌==◌, if◌then◌else◌, arith, Bool-cases,
}
use act_sim_scope_infra.Wire.SequenceRanges.{Ranges, covered, add_at, add, contains}
use act_sim_scope_infra.Wire.SequenceRanges.Search.{Separated, rank, bisect_right-eq-rank}

-- Membership, by looking at every range.
abbrev pub mem : ℕ → Ranges → Bool
mem s [] = false
mem s ((a, b) ∷ l) = leb a s && leb s b || mem s l

abbrev pub IsValid : Ranges → Type 0
IsValid = Separated 0

-- The reference: one walk from the left.
abbrev insert : ℕ → Ranges → Ranges
insert s [] = (s, s) ∷ []
insert s ((a, b) ∷ []) =
    if ltb s a
    then (if (s + 1) == a then (s, b) ∷ [] else (s, s) ∷ (a, b) ∷ [])
    else if leb s b
    then (a, b) ∷ []
    else if s == (b + 1)
    then (a, s) ∷ []
    else (a, b) ∷ (s, s) ∷ []
insert s ((a, b) ∷ (c, d) ∷ l) =
    if ltb s a
    then (if (s + 1) == a then (s, b) ∷ (c, d) ∷ l else (s, s) ∷ (a, b) ∷ (c, d) ∷ l)
    else if leb s b
    then (a, b) ∷ (c, d) ∷ l
    else if s == (b + 1)
    then (if (s + 1) == c then (a, d) ∷ l else (a, s) ∷ (c, d) ∷ l)
    else (a, b) ∷ insert s ((c, d) ∷ l)

covered-rank : (n s : ℕ) (l : Ranges) → Separated n l → covered l (rank s l) s ≡ mem s l
unfolding covered
covered-rank n s [] v = refl
covered-rank n s ((a, b) ∷ []) v = ground arith
covered-rank n s ((a, b) ∷ (c, d) ∷ l) v = ground (arith, covered-rank (b + 2) s ((c, d) ∷ l) v.2)

mem_late : (n s : ℕ) (l : Ranges) → Separated n l → s < n → mem s l ≡ false
mem_late n s [] v h = refl
mem_late n s ((a, b) ∷ l) v h = ground (arith, mem_late (b + 2) s l v.2)

add_at_cons :
    (i s : ℕ) (r : ℕ × ℕ) (l : Ranges)
    → add_at (suc (suc i)) (r ∷ l) s ≡ (r ∷ (add_at (suc i) l s).0, (add_at (suc i) l s).1)
unfolding add_at
add_at_cons i s r l = ground arith

-- The number falls before the second range, so the search stops at the first.
add_at_near :
    (n a b c d s : ℕ) (l : Ranges)
    → Separated n ((a, b) ∷ (c, d) ∷ l)
    → leb c s ≡ false
    → add_at (rank s ((a, b) ∷ (c, d) ∷ l)) ((a, b) ∷ (c, d) ∷ l) s
      ≡ (insert s ((a, b) ∷ (c, d) ∷ l), not (mem s ((a, b) ∷ (c, d) ∷ l)))
unfolding add_at
add_at_near n a b c d s l v e = ground (arith, mem_late (d + 2) s l v.2.2)

add_at-rank :
    (n s : ℕ) (l : Ranges) → Separated n l → add_at (rank s l) l s ≡ (insert s l, not (mem s l))
add_at-rank n s [] v = unfold add_at in refl
add_at-rank n s ((a, b) ∷ []) v = unfold add_at in ground arith
add_at-rank n s ((a, b) ∷ (c, d) ∷ l) v = elim (Bool-cases (leb c s)) [
  | inl e ↦
      ground (
        arith,
        add_at_cons (rank s l) s (a, b) ((c, d) ∷ l),
        add_at-rank (b + 2) s ((c, d) ∷ l) v.2,
      )
  | inr e ↦ add_at_near n a b c d s l v e
]

insert-Separated : (n s : ℕ) (l : Ranges) → n ≤ s → Separated n l → Separated n (insert s l)
insert-Separated n s [] h v = ground arith
insert-Separated n s ((a, b) ∷ []) h v = ground arith
insert-Separated n s ((a, b) ∷ (c, d) ∷ l) h v =
    ground (arith, insert-Separated (b + 2) s ((c, d) ∷ l))

insert_deep :
    (n a b c d s : ℕ) (l : Ranges)
    → Separated n ((a, b) ∷ (c, d) ∷ l)
    → leb c s ≡ true
    → insert s ((a, b) ∷ (c, d) ∷ l) ≡ (a, b) ∷ insert s ((c, d) ∷ l)
insert_deep n a b c d s l v e = ground arith

mem-insert_near :
    (n a b c d s x : ℕ) (l : Ranges)
    → Separated n ((a, b) ∷ (c, d) ∷ l)
    → leb c s ≡ false
    → mem x (insert s ((a, b) ∷ (c, d) ∷ l)) ≡ (x == s || mem x ((a, b) ∷ (c, d) ∷ l))
mem-insert_near n a b c d s x l v e = ground arith

or_left_comm : (p q r : Bool) → (p || (q || r)) ≡ (q || (p || r))
or_left_comm p q r = ground arith

mem-insert : (n s x : ℕ) (l : Ranges) → Separated n l → mem x (insert s l) ≡ (x == s || mem x l)
mem-insert n s x [] v = ground arith
mem-insert n s x ((a, b) ∷ []) v = ground arith
mem-insert n s x ((a, b) ∷ (c, d) ∷ l) v = elim (Bool-cases (leb c s)) [
  | inl e ↦ rw (insert_deep n a b c d s l v e) (
      ap (λ m. leb a x && leb x b || m) (mem-insert (b + 2) s x ((c, d) ∷ l) v.2)
      ∙ or_left_comm (leb a x && leb x b) (x == s) (mem x ((c, d) ∷ l)))
  | inr e ↦ mem-insert_near n a b c d s x l v e
]

module _ (l : Ranges) (v : IsValid l) (s : ℕ) where
  -- `contains` answers membership.
  pub contains-eq-mem : contains l s ≡ mem s l
  unfolding contains
  contains-eq-mem = rw (bisect_right-eq-rank 0 s l v) (covered-rank 0 s l v)

  add-eq-insert : add l s ≡ (insert s l, not (mem s l))
  unfolding add
  add-eq-insert = rw (bisect_right-eq-rank 0 s l v) (add_at-rank 0 s l v)

  pub add-IsValid : IsValid (add l s).0
  add-IsValid = rw add-eq-insert (insert-Separated 0 s l (omega arith) v)

  -- A number is refused exactly if it was seen.
  pub add-result : (add l s).1 ≡ not (contains l s)
  add-result = rw (add-eq-insert, contains-eq-mem) refl

  pub mem-add : (x : ℕ) → mem x (add l s).0 ≡ (x == s || mem x l)
  mem-add x = rw add-eq-insert (mem-insert 0 s x l v)

-- From valid ranges `add` keeps them valid, returns whether the number is new, and afterwards
-- `contains` holds of that number and of those of which it held before, and of no other.
pub add_lem :
    (l : Ranges) (s x : ℕ)
    → IsValid l
    → IsValid (add l s).0
      × ((add l s).1 ≡ not (contains l s))
      × (contains (add l s).0 x ≡ (x == s || contains l x))
add_lem l s x v = (
  add-IsValid l v s,
  add-result l v s,
  contains-eq-mem (add l s).0 (add-IsValid l v s) x
      ∙ mem-add l v s x
      ∙ ap (λ m. x == s || m) (sym (contains-eq-mem l v x)),
)

-- `add` for one sequence number after another.
abbrev pub record_all : List ℕ → Ranges → Ranges
record_all [] l = l
record_all (s ∷ ss) l = record_all ss (add l s).0

any_shift : (p q r : Bool) → (p || (q || r)) ≡ ((q || p) || r)
any_shift p q r = ground arith

recorded :
    (ss : List ℕ) (l : Ranges) (x : ℕ)
    → IsValid l
    → contains (record_all ss l) x ≡ (any (λ s. x == s) ss || contains l x)
recorded [] l x v = refl
recorded (s ∷ ss) l x v =
    let (kept, fresh, seen) = add_lem l s x v in
    recorded ss (add l s).0 x kept
    ∙ ap (λ m. any (λ s. x == s) ss || m) seen
    ∙ any_shift (any (λ s. x == s) ss) (x == s) (contains l x)

or_false : (p : Bool) → (p || false) ≡ p
or_false p = ground arith

-- From the empty object, whatever the order of the numbers added, `contains` holds of exactly those.
pub record_all-contains :
    (ss : List ℕ) (x : ℕ) → contains (record_all ss []) x ≡ any (λ s. x == s) ss
record_all-contains ss x =
    recorded ss [] x tt
    ∙ ap (λ m. any (λ s. x == s) ss || m) (contains-eq-mem [] tt x)
    ∙ or_false (any (λ s. x == s) ss)
