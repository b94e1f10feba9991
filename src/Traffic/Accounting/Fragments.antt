-- ===== src/Traffic/Accounting/Fragments.antt =====
-- The fragments that `FrameAccounting` collects, and those that hold back its accumulator.
use act_sim_scope_infra.Common.{
  ℕ, ◌+◌, ◌-◌, ◌*◌, ◌/◌, ◌≡◌, refl, ap, sym, ◌∙◌, String, List, [], ◌∷◌, Bool, true, false, Option,
  none, some, ltb, if◌then◌else◌, Dict, lookup, insert, erase, Unique, erase-Unique, lookup-erase,
  string_key, pair_key, arith, inl, inr, Bool-cases, length, member,
}
use act_sim_scope_infra.Wire.Bytes.{Bytes}
use act_sim_scope_infra.Traffic.Counters.{FrameClass, TxClass}
use act_sim_scope_infra.Traffic.Accumulator.{FragmentKey}
use act_sim_scope_infra.Traffic.Accumulator.Fields.{
  add_packet-SameFragments, pending-release_fragment, orphans-release_fragment,
}
use act_sim_scope_infra.Traffic.Accounting.{
  Group, Accounting, Row, millisecond, second, emit, emit_all, drop_group, orphan, settle,
  settle_in, expire_groups, expire, account,
}

-- A group's sums are those of its frames.
abbrev pub sum_sizes : List (ℕ × ℕ) → ℕ
sum_sizes [] = 0
sum_sizes ((t, size) ∷ fs) = size + sum_sizes fs

abbrev pub IsCounted : Group → Type 0
IsCounted g = (g.packets ≡ length g.frames) × (g.bytes ≡ sum_sizes g.frames)

-- When a key is held at the accumulator: since the first of its fragments.
abbrev pub held_at : Option Group → Option ℕ
held_at none = none
held_at (some g) = some (g.at / millisecond)

abbrev pub AllCounted : Dict FragmentKey Group → Type 0
AllCounted [] = Unit
AllCounted ((key, g) ∷ d) = IsCounted g × AllCounted d

pub record IsValid (a : Accounting) : Type 0 where
  pub unique : Unique a.fragments
  pub unique_held : Unique a.accumulator.pending_fragments
  pub counted : AllCounted a.fragments
  pub held :
      (key : FragmentKey)
      → lookup key a.accumulator.pending_fragments ≡ held_at (lookup key a.fragments)
  pub orphans : a.accumulator.orphan_fragment_packets ≡ a.orphan_packets
  pub orphan_bytes : a.accumulator.orphan_fragment_bytes ≡ a.orphan_bytes

-- Two states that hold the same fragments and count the same orphans.
pub record Same (a b : Accounting) : Type 0 where
  pub fragments : b.fragments ≡ a.fragments
  pending : b.accumulator.pending_fragments ≡ a.accumulator.pending_fragments
  packets : b.orphan_packets ≡ a.orphan_packets
  bytes : b.orphan_bytes ≡ a.orphan_bytes
  acc_packets : b.accumulator.orphan_fragment_packets ≡ a.accumulator.orphan_fragment_packets
  acc_bytes : b.accumulator.orphan_fragment_bytes ≡ a.accumulator.orphan_fragment_bytes

pub Same-IsValid : {a b : Accounting} → Same a b → IsValid a → IsValid b
Same-IsValid s v = record {
  unique = rw (s.fragments) v.unique;
  unique_held = rw (s.pending) v.unique_held;
  counted = rw (s.fragments) v.counted;
  held = λ key. rw (s.fragments, s.pending) (v.held key);
  orphans = s.acc_packets ∙ v.orphans ∙ sym s.packets;
  orphan_bytes = s.acc_bytes ∙ v.orphan_bytes ∙ sym s.bytes;
}

Same-trans : {a b c : Accounting} → Same a b → Same b c → Same a c
Same-trans s t = record {
  fragments = t.fragments ∙ s.fragments;
  pending = t.pending ∙ s.pending;
  packets = t.packets ∙ s.packets;
  bytes = t.bytes ∙ s.bytes;
  acc_packets = t.acc_packets ∙ s.acc_packets;
  acc_bytes = t.acc_bytes ∙ s.acc_bytes;
}

-- Frames added to the accumulator leave all this alone.
emit-Same :
    (domain : ℕ) (source : String) (f : ℕ × ℕ) (c : FrameClass) (tx : TxClass) (i : Bool)
    (a : Accounting)
    → Same a (emit domain source f c tx i a)
unfolding emit
emit-Same domain source f c tx i a =
    let s = add_packet-SameFragments _ a.accumulator in
    record {
      fragments = refl;
      pending = s.pending;
      packets = refl;
      bytes = refl;
      acc_packets = s.packets;
      acc_bytes = s.bytes;
    }

pub emit_all-Same :
    (domain : ℕ) (source : String) (fs : List (ℕ × ℕ)) (c : FrameClass) (tx : TxClass) (i : Bool)
    (a : Accounting)
    → Same a (emit_all domain source fs c tx i a)
unfolding emit_all
emit_all-Same domain source [] c tx i a = record {
  fragments = refl;
  pending = refl;
  packets = refl;
  bytes = refl;
  acc_packets = refl;
  acc_bytes = refl;
}
emit_all-Same domain source (f ∷ fs) c tx i a =
    Same-trans (emit-Same domain source f c tx i a)
      (emit_all-Same domain source fs c tx i (emit domain source f c tx i a))

pub account-Same :
    (wall : ℕ) (r : Row) (source : String) (domain : ℕ) (prefix : Bytes) (fs : List (ℕ × ℕ))
    (a : Accounting)
    → Same a (account wall r source domain prefix fs a)
unfolding account
account-Same wall r source domain prefix fs a =
    let s = emit_all-Same domain source fs _ _ false (record a { topics = _; dirty = _ }) in
    record {
      fragments = s.fragments;
      pending = s.pending;
      packets = s.packets;
      bytes = s.bytes;
      acc_packets = s.acc_packets;
      acc_bytes = s.acc_bytes;
    }

orphan-IsValid : (g : Group) (a : Accounting) → IsValid a → IsValid (orphan g a)
unfolding orphan
orphan-IsValid g a v = record {
  unique = v.unique;
  unique_held = v.unique_held;
  counted = v.counted;
  held = v.held;
  orphans = refl;
  orphan_bytes = refl;
}

erase-AllCounted :
    (key : FragmentKey) (d : Dict FragmentKey Group) → AllCounted d → AllCounted (erase key d)
erase-AllCounted key [] h = tt
erase-AllCounted key ((k, g) ∷ d) h = ground (arith, erase-AllCounted key d h.1)

pub insert-AllCounted :
    (key : FragmentKey) (g : Group) (d : Dict FragmentKey Group)
    → IsCounted g
    → AllCounted d
    → AllCounted (insert key g d)
insert-AllCounted key g [] c h = (c, tt)
insert-AllCounted key g ((k, g') ∷ d) c h = ground (arith, insert-AllCounted key g d c h.1)

pub held_at-if :
    (b : Bool) (o p : Option Group)
    → held_at (if b then o else p) ≡ (if b then held_at o else held_at p)
held_at-if true o p = refl
held_at-if false o p = refl

pub drop_group-IsValid :
    (key : FragmentKey) (a : Accounting) → IsValid a → IsValid (drop_group key a)
unfolding drop_group
drop_group-IsValid key a v = record {
  unique = erase-Unique key a.fragments v.unique;
  unique_held = rw pending-release_fragment (erase-Unique key _ v.unique_held);
  counted = erase-AllCounted key a.fragments v.counted;
  held = λ k.
      ap (λ d. lookup k d) (pending-release_fragment key a.accumulator)
      ∙ lookup-erase key k a.accumulator.pending_fragments v.unique_held
      ∙ ap (λ o. if pair_key.same key k then none else o) (v.held k)
      ∙ sym (held_at-if (pair_key.same key k) none (lookup k a.fragments))
      ∙ sym (ap held_at (lookup-erase key k a.fragments v.unique));
  orphans = (orphans-release_fragment key a.accumulator).0 ∙ v.orphans;
  orphan_bytes = (orphans-release_fragment key a.accumulator).1 ∙ v.orphan_bytes;
}

settle-IsValid :
    (d : Option ℕ) (key : FragmentKey) (g : Group) (a : Accounting)
    → IsValid a
    → IsValid (settle_in d key g a)
unfolding settle_in
settle-IsValid none key g a v = orphan-IsValid g a v
settle-IsValid (some d) key g a v = elim (Bool-cases (member d a.domains)) [
  | inl m ↦
      rw m
        (Same-IsValid (emit_all-Same d key.0 g.frames FrameClass.unknown TxClass.unknown true a) v)
  | inr m ↦ rw m (orphan-IsValid g a v)
]

-- Only the group's key is taken out.
pub fragments-settle :
    (d : Option ℕ) (key : FragmentKey) (g : Group) (a : Accounting)
    → (settle_in d key g (drop_group key a)).fragments ≡ erase key a.fragments
unfolding settle_in orphan drop_group
fragments-settle none key g a = refl
fragments-settle (some d) key g a = elim (Bool-cases (member d a.domains)) [
  | inl m ↦ rw m (
      (emit_all-Same d key.0 g.frames FrameClass.unknown TxClass.unknown true
        (drop_group key a)).fragments)
  | inr m ↦ rw m refl
]

expire_groups-IsValid :
    (now : ℕ) (gs : Dict FragmentKey Group) (a : Accounting)
    → IsValid a
    → IsValid (expire_groups now gs a)
unfolding expire_groups
expire_groups-IsValid now [] a v = v
expire_groups-IsValid now ((key, g) ∷ rest) a v =
    expire_groups-IsValid now rest _ (one (ltb (now - g.at) (5 * second)))
  where
    one : (b : Bool) → IsValid (if b then a else settle key g (drop_group key a))
    one true = v
    one false = settle-IsValid g.domain key g (drop_group key a) (drop_group-IsValid key a v)

pub expire-IsValid : (now : ℕ) (a : Accounting) → IsValid a → IsValid (expire now a)
unfolding expire
expire-IsValid now a v = expire_groups-IsValid now a.fragments a v
