-- ===== src/Wire/Submessages/Kinds/WellFormed.antt =====
-- What the items of `submessages` are.
use act_sim_scope_infra.Common.{
  ℕ, zero, suc, ◌+◌, ◌-◌, ◌*◌, ◌/◌, ◌≤◌, ◌<◌, ◌≡◌, refl, min, List, [], ◌∷◌, ◌++◌, map, Bool,
  Option, none, some, ltb, ◌==◌, length, arith, All, inl, inr, Bool-cases, length-append,
}
use act_sim_scope_infra.Wire.Bytes.{
  Bytes, read_u16-is_ok, read_u32-is_ok, slice, length-slice, truncated_inline,
}
use act_sim_scope_infra.Wire.Submessages.Outcome.{Holds, Holds-read_u16, Holds-raise_if}
use act_sim_scope_infra.Wire.Submessages.Kinds.{
  Fragment, Item, repair_request, sample, requested, answer, skip_inline, fragment_of,
  sequence_number, requests,
}

-- The fragments that a DATA_FRAG carries lie inside its sample, and their bytes are there.
abbrev pub Fits : Bytes → Option Fragment → Type 0
Fits payload none = Unit
Fits payload (some f) =
    (1 ≤ f.first)
    × (1 ≤ f.count)
    × (1 ≤ f.fragment_size)
    × (1 ≤ f.sample_size)
    × (f.sample_size ≤ 16 * 1024 * 1024)
    × (f.first + f.count - 1 ≤ (f.sample_size + f.fragment_size - 1) / f.fragment_size)
    × (min (f.count * f.fragment_size) (f.sample_size - (f.first - 1) * f.fragment_size)
        ≤ length payload)

-- GUIDs are whole, and sequence numbers positive.
abbrev pub IsWellFormed : Item → Type 0
IsWellFormed (repair_request writer reader n) =
    (length writer ≡ 16) × (length reader ≡ 16) × (1 ≤ n)
IsWellFormed (sample s) =
    (length s.writer_guid ≡ 16)
    × (1 ≤ s.sequence)
    × (length s.reader_id ≡ 4)
    × Fits s.payload s.fragment

pub fragment_of-Holds :
    (little : Bool) (body payload : Bytes)
    → 32 ≤ length body
    → Holds (λ f. Fits payload (some f)) (fragment_of little body payload)
unfolding fragment_of
fragment_of-Holds little body payload h = ground (
  arith,
  read_u32-is_ok little body 20,
  read_u16-is_ok little body 24,
  read_u16-is_ok little body 26,
  read_u32-is_ok little body 28,
)

pub skip_inline-Holds :
    (f : ℕ) (little : Bool) (body : Bytes) (cursor : ℕ)
    → length body < cursor + f
    → cursor ≤ length body
    → Holds (λ c. c ≤ length body) (skip_inline f little body cursor)
unfolding skip_inline
skip_inline-Holds zero little body cursor h le = absurd (omega arith)
skip_inline-Holds (suc f) little body cursor h le =
    Holds-raise_if _ (ltb (length body) (cursor + 4)) truncated_inline _ tt λ enough.
      Holds-read_u16 _ little body cursor _ (ground arith) λ pid.
        Holds-read_u16 _ little body (cursor + 2) _ (ground arith)
          λ size. ground (arith, skip_inline-Holds f little body (cursor + 4 + (size + 3) / 4 * 4))

pub requested-Holds :
    (little : Bool) (body : Bytes) (base remaining index : ℕ)
    → base + 4 * ((index + remaining + 31) / 32) ≤ length body
    → Holds (λ l. Unit) (requested little body base remaining index)
unfolding requested
requested-Holds little body base zero index h = tt
requested-Holds little body base (suc n) index h = ground (
  arith,
  read_u32-is_ok little body (base + 4 * (index / 32)),
  requested-Holds little body base n (index + 1),
)

pub length-guid : (a b : Bytes) (m n : ℕ) → length a ≡ m → length b ≡ n → length (a ++ b) ≡ m + n
length-guid a b m n p q = omega (arith, length-append a b)

All-requests :
    (w r : Bytes) (l : List ℕ)
    → length w ≡ 16
    → length r ≡ 16
    → All (λ n. 1 ≤ n) l
    → All IsWellFormed (map (λ n. repair_request w r n) l)
All-requests w r [] p q h = tt
All-requests w r (n ∷ l) p q h = ((p, q, h.0), All-requests w r l p q h.1)

All-shifted : (n : ℕ) (l : List ℕ) → 1 ≤ n → All (λ k. 1 ≤ k) (map (λ i. n + i) l)
All-shifted n [] h = tt
All-shifted n (i ∷ l) h = (omega arith, All-shifted n l h)

requests-WellFormed :
    (kind : ℕ) (w r : Bytes) (n : ℕ) (l : List ℕ)
    → length w ≡ 16
    → length r ≡ 16
    → 1 ≤ n
    → All IsWellFormed (requests kind w r n l)
unfolding requests
requests-WellFormed kind w r n l p q h = elim (Bool-cases (kind == 0x06)) [
  | inl e ↦ rw e (All-requests w r (map (λ i. n + i) l) p q (All-shifted n l h))
  | inr e ↦ rw e (All-requests w r (n ∷ []) p q (h, tt))
]

-- What the loop of `submessages` knows of its variables.
abbrev pub HasLength : ℕ → Option Bytes → Type 0
HasLength n none = Unit
HasLength n (some d) = length d ≡ n

pub sequence_number-pos : (high low n : ℕ) → sequence_number high low ≡ some n → 1 ≤ n
unfolding sequence_number
sequence_number-pos high low n h = ground arith

pub answer-Holds :
    (kind : ℕ) (prefix : Bytes) (destination : Option Bytes) (body : Bytes) (sequence : Option ℕ)
    (wanted : List ℕ)
    → length prefix ≡ 12
    → HasLength 12 destination
    → 8 ≤ length body
    → ((n : ℕ) → sequence ≡ some n → 1 ≤ n)
    → Holds (All IsWellFormed) (answer kind prefix destination body sequence wanted)
unfolding answer
answer-Holds kind prefix d body sequence [] p q h pos = tt
answer-Holds kind prefix d body none (i ∷ is) p q h pos = tt
answer-Holds kind prefix none body (some n) (i ∷ is) p q h pos = tt
answer-Holds kind prefix (some d) body (some n) (i ∷ is) p q h pos =
    requests-WellFormed kind (d ++ slice body 4 8) (prefix ++ slice body 0 4) n (i ∷ is)
      (length-guid d (slice body 4 8) 12 4 q (rw length-slice (omega arith)))
      (length-guid prefix (slice body 0 4) 12 4 p (rw length-slice (omega arith))) (pos n refl)
