-- ===== src/Traffic/Accumulator/Inv.antt =====
-- The invariant of `TrafficAccumulator`.
use native.Mathlib.Nat.{mul-div_cancel, add-div_right}
use act_sim_scope_infra.Common.{
  ℕ, ◌+◌, ◌/◌, ◌≤◌, ◌<◌, ◌≡◌, refl, Option, none, some, [], ◌∷◌, arith, Dict, insert, get_default,
  Unique, insert-Unique, nat_key, ◌==◌, inl, inr, Bool-cases,
}
use act_sim_scope_infra.Traffic.Counters.{
  Counters, empty_counters, Packet, IsBalanced, empty-IsBalanced, count_packet-IsBalanced,
}
use act_sim_scope_infra.Traffic.Accumulator.{Accumulator, Domains, window_of, count_in}

-- A window starts at a multiple of the interval.
abbrev pub IsStart : ℕ → ℕ → Type 0
IsStart i w = window_of i w ≡ w

pub window_of_bounds : (i t : ℕ) → 1 ≤ i → (window_of i t ≤ t) × (t < window_of i t + i)
window_of_bounds i t h = grind arith

pub window_of-IsStart : (i t : ℕ) → 1 ≤ i → IsStart i (window_of i t)
window_of-IsStart i t h = rw (mul-div_cancel (t / i) h) refl

pub IsStart-add : (i w : ℕ) → 1 ≤ i → IsStart i w → IsStart i (w + i)
IsStart-add i w h s = rw (add-div_right w h) (grind arith)

pub next_start : (i n w : ℕ) → 1 ≤ i → IsStart i n → IsStart i w → n < w → n + i ≤ w
next_start i n w h s t lt = grind arith

-- A window that holds counts is open: it starts at the next one to close or later.
abbrev pub IsOpen : ℕ → Option ℕ → ℕ → Type 0
IsOpen i none w = ⊥
IsOpen i (some n) w = (n ≤ w) × IsStart i w

abbrev pub AllBalanced : Domains → Type 0
AllBalanced [] = Unit
AllBalanced ((domain, counters) ∷ d) = IsBalanced counters × AllBalanced d

abbrev pub AllOpen : ℕ → Option ℕ → Dict ℕ Domains → Type 0
AllOpen i next [] = Unit
AllOpen i next ((w, domains) ∷ d) = IsOpen i next w × AllBalanced domains × AllOpen i next d

-- The next window starts at a multiple of the interval, and once one is closed the bound of the closed
-- ones is where the next begins.
abbrev pub StartsAt : ℕ → Option ℕ → Type 0
StartsAt i none = Unit
StartsAt i (some n) = IsStart i n

abbrev pub Matches : ℕ → Option ℕ → Option ℕ → Type 0
Matches i next none = StartsAt i next
Matches i next (some c) = (next ≡ some c) × IsStart i c

pub record IsValid (a : Accumulator) : Type 0 where
  pub positive : 1 ≤ a.interval_ms
  pub aligned : Matches a.interval_ms a.next_window a.closed_before
  pub unique : Unique a.windows
  pub is_open : AllOpen a.interval_ms a.next_window a.windows

pub get_default-AllBalanced :
    (i : ℕ) (next : Option ℕ) (w : ℕ) (ws : Dict ℕ Domains)
    → AllOpen i next ws
    → AllBalanced (get_default w [] ws)
get_default-AllBalanced i next w [] h = tt
get_default-AllBalanced i next w ((v, domains) ∷ ws) h =
    ground (arith, get_default-AllBalanced i next w ws h.2)

pub get_default-IsBalanced :
    (k : ℕ) (d : Domains) → AllBalanced d → IsBalanced (get_default k empty_counters d)
get_default-IsBalanced k [] h = empty-IsBalanced
get_default-IsBalanced k ((j, c) ∷ d) h = elim (Bool-cases (j == k)) [
  | inl e ↦ rw (e, get_default) h.0
  | inr e ↦ rw (e, get_default) (get_default-IsBalanced k d h.1)
]

pub insert-AllBalanced :
    (k : ℕ) (c : Counters) (d : Domains) → IsBalanced c → AllBalanced d → AllBalanced (insert k c d)
insert-AllBalanced k c [] b h = (b, tt)
insert-AllBalanced k c ((j, c') ∷ d) b h = elim (Bool-cases (j == k)) [
  | inl e ↦ rw e (b, h.1)
  | inr e ↦ rw e (h.0, insert-AllBalanced k c d b h.1)
]

insert-AllOpen :
    (i : ℕ) (next : Option ℕ) (w : ℕ) (domains : Domains) (ws : Dict ℕ Domains)
    → IsOpen i next w
    → AllBalanced domains
    → AllOpen i next ws
    → AllOpen i next (insert w domains ws)
insert-AllOpen i next w domains [] o b h = (o, b, tt)
insert-AllOpen i next w domains ((v, d) ∷ ws) o b h = elim (Bool-cases (v == w)) [
  | inl e ↦ rw e (h.0, b, h.2)
  | inr e ↦ rw e (h.0, h.1, insert-AllOpen i next w domains ws o b h.2)
]

-- A later bound keeps what lies behind it; an earlier one keeps all.
pub AllOpen-earlier :
    (i n m : ℕ) (ws : Dict ℕ Domains) → m ≤ n → AllOpen i (some n) ws → AllOpen i (some m) ws
AllOpen-earlier i n m [] le h = tt
AllOpen-earlier i n m ((v, d) ∷ ws) le h =
    ((omega arith, h.0.1), h.1, AllOpen-earlier i n m ws le h.2)

pub AllOpen-none : (i m : ℕ) (ws : Dict ℕ Domains) → AllOpen i none ws → AllOpen i (some m) ws
AllOpen-none i m [] h = tt
AllOpen-none i m ((v, d) ∷ ws) h = absurd h.0

pub count_in-AllOpen :
    (i : ℕ) (next : Option ℕ) (p : Packet) (w : ℕ) (ws : Dict ℕ Domains)
    → IsOpen i next w
    → AllOpen i next ws
    → AllOpen i next (count_in p w ws)
unfolding count_in
count_in-AllOpen i next p w ws o h =
    let domains = get_default w [] ws in
    let old = get_default-AllBalanced i next w ws h in
    insert-AllOpen i next w _ ws o
      (insert-AllBalanced p.domain_id _ domains
        (count_packet-IsBalanced p _ (get_default-IsBalanced p.domain_id domains old)) old)
      h

pub count_in-Unique :
    (p : Packet) (w : ℕ) (ws : Dict ℕ Domains) → Unique ws → Unique (count_in p w ws)
unfolding count_in
count_in-Unique p w ws u = insert-Unique w _ ws u

pub StartsAt-Matches : (i : ℕ) (next closed : Option ℕ) → Matches i next closed → StartsAt i next
StartsAt-Matches i next none m = m
StartsAt-Matches i next (some c) m = rw m.0 m.1
