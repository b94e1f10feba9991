-- ===== src/Wire/SequenceRanges.antt =====
-- `class SequenceRanges` of debug/scripts/rtps_delivery.py: the sequence numbers seen, kept as a
-- sorted list of closed ranges. The proofs are in the modules below.
pub mod Search
pub mod Members
mod Tests
use act_sim_scope_infra.Common.{
  ℕ, zero, suc, ◌+◌, ◌/◌, List, [], ◌∷◌, Bool, true, false, Option, none, some, ltb, leb, ◌==◌,
  if◌then◌else◌, length, get_elem?, erase_idx, insert_idx,
}

-- (low, high), both included
abbrev pub Range : Type 0
Range = ℕ × ℕ

abbrev pub Ranges : Type 0
Ranges = List Range

-- `bisect.bisect_right(ranges, (sequence, math.inf))`: the loop of the library, `while lo < hi`,
-- with fuel. `(sequence, inf) < ranges[mid]` says `sequence < ranges[mid][0]`.
abbrev pub above : ℕ → Option Range → Bool
above s none = true
above s (some (a, b)) = ltb s a

pub bisect_loop : ℕ → Ranges → ℕ → ℕ → ℕ → ℕ
bisect_loop zero l s lo hi = lo
bisect_loop (suc f) l s lo hi =
    let mid = (lo + hi) / 2 in
    let left = bisect_loop f l s lo mid in
    let right = bisect_loop f l s (mid + 1) hi in
    if ltb lo hi then (if above s (get_elem? l mid) then left else right) else lo

pub bisect_right : Ranges → ℕ → ℕ
unfolding bisect_loop
bisect_right l s = bisect_loop (length l) l s 0 (length l)

-- `index and self.ranges[index - 1][1] >= sequence`
pub covered : Ranges → ℕ → ℕ → Bool
covered l zero s = false
covered l (suc i) s = elim (get_elem? l i) [ none ↦ false | some (a, b) ↦ leb s b ]

-- The range that ends just below `sequence` is taken out, and its low end kept.
pub extend_low : Ranges → ℕ → ℕ → Ranges × ℕ × ℕ
extend_low l zero s = (l, 0, s)
extend_low l (suc i) s = elim (get_elem? l i) [
  | none ↦ (l, suc i, s)
  | some (a, b) ↦ if (b + 1) == s then (erase_idx l i, i, a) else (l, suc i, s)
]

-- The range that begins just above `sequence` is taken out, and its high end kept.
pub extend_high : Ranges → ℕ → ℕ → Ranges × ℕ
extend_high l i s = elim (get_elem? l i) [
  | none ↦ (l, s)
  | some (a, b) ↦ if a == (s + 1) then (erase_idx l i, b) else (l, s)
]

-- The body of `add` behind the search.
pub add_at : ℕ → Ranges → ℕ → Ranges × Bool
unfolding covered extend_low extend_high
add_at i l s =
    if covered l i s
    then (l, false)
    else let (l1, i1, low) = extend_low l i s in
      let (l2, high) = extend_high l1 i1 s in (insert_idx l2 i1 (low, high), true)

unfoldable pub add : Ranges → ℕ → Ranges × Bool
unfolding bisect_right add_at
add l s = add_at (bisect_right l s) l s

unfoldable pub contains : Ranges → ℕ → Bool
unfolding bisect_right covered
contains l s = covered l (bisect_right l s) s
