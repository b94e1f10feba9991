-- ===== src/Traffic/Accounting/Held.antt =====
-- `FrameAccounting.process` and the invariant of the fragments.
use act_sim_scope_infra.Common.{
  Unique, subst, ℕ, ◌+◌, ◌/◌, ◌≡◌, refl, ap, sym, ◌∙◌, String, List, [], ◌∷◌, ◌++◌, Bool, true,
  false, Option, none, some, if◌then◌else◌, Dict, lookup, get_default, insert-Unique, lookup-insert,
  lookup-insert_self, length-append, string_key, pair_key, arith, is_some, inl, inr, Bool-cases,
  length, member, not, ◌==◌,
}
use act_sim_scope_infra.Wire.Bytes.{Bytes}
use act_sim_scope_infra.Traffic.Accumulator.{Accumulator, FragmentKey}
use act_sim_scope_infra.Traffic.Accumulator.Fields.{pending-hold_fragment, orphans-hold_fragment}
use act_sim_scope_infra.Traffic.Accounting.Learned.{Topics}
use act_sim_scope_infra.Traffic.Accounting.{
  start, process_all, Group, Accounting, Row, millisecond, finish_in, process_from, collect,
  release_if, process_udp, process, is_fragment, port_domain,
}
use act_sim_scope_infra.Traffic.Accounting.Fragments.{
  IsCounted, AllCounted, IsValid, held_at, held_at-if, Same-IsValid, account-Same, sum_sizes,
  drop_group-IsValid, insert-AllCounted, expire-IsValid,
}

-- A group that is found is one of the counted.
pub get_default-IsCounted :
    (key : FragmentKey) (fresh : Group) (d : Dict FragmentKey Group)
    → IsCounted fresh
    → AllCounted d
    → IsCounted (get_default key fresh d)
get_default-IsCounted key fresh [] c h = c
get_default-IsCounted key fresh ((k, g) ∷ d) c h =
    ground (arith, get_default-IsCounted key fresh d c h.1)

pub sum_sizes-append :
    (fs : List (ℕ × ℕ)) (t n : ℕ) → sum_sizes (fs ++ (t, n) ∷ []) ≡ sum_sizes fs + n
sum_sizes-append [] t n = omega arith
sum_sizes-append ((u, m) ∷ fs) t n = omega (arith, sum_sizes-append fs t n)

-- The time since which a key is held, whether it was held before or is held from now on.
held_since :
    (o : Option Group) (q : Option ℕ) (fresh : Group)
    → q ≡ held_at o
    → elim q as (λ x. ℕ) [ none ↦ fresh.at / millisecond | some t ↦ t ]
      ≡ (elim o as (λ x. Group) [ none ↦ fresh | some g ↦ g ]).at / millisecond
held_since o q fresh e = ground arith

-- The group that is left in the dict is the one handed on, and its frames are its packets.
pub lookup-collect :
    (r : Row) (key : FragmentKey) (a : Accounting)
    → lookup key (collect r key a).1.fragments ≡ some (collect r key a).0
unfolding collect
lookup-collect r key a = lookup-insert_self key _ a.fragments

pub packets-collect :
    (r : Row) (key : FragmentKey) (a : Accounting)
    → IsValid a
    → (collect r key a).0.packets ≡ length (collect r key a).0.frames
unfolding collect
packets-collect r key a v =
    let fresh : Group = record {
      at = r.time;
      domain = none;
      bytes = 0;
      packets = 0;
      frames = [];
    } in
    omega (
      arith,
      get_default-IsCounted key fresh a.fragments (refl, refl) v.counted,
      length-append (get_default key fresh a.fragments).frames ((r.time, r.size) ∷ []),
    )

collect-IsValid :
    (r : Row) (key : FragmentKey) (a : Accounting) → IsValid a → IsValid (collect r key a).1
unfolding collect
collect-IsValid r key a v =
    let fresh : Group = record {
      at = r.time;
      domain = none;
      bytes = 0;
      packets = 0;
      frames = [];
    } in
    let old = get_default key fresh a.fragments in
    let counted = get_default-IsCounted key fresh a.fragments (refl, refl) v.counted in
    record {
      unique = insert-Unique key _ a.fragments v.unique;
      unique_held = rw pending-hold_fragment (insert-Unique key _ _ v.unique_held);
      counted =
          insert-AllCounted key _ a.fragments
            (
              omega (arith, counted, length-append old.frames ((r.time, r.size) ∷ [])),
              omega (arith, counted, sum_sizes-append old.frames r.time r.size),
            )
            v.counted;
      held = λ k.
          ap (λ d. lookup k d) (pending-hold_fragment key (r.time / millisecond) a.accumulator)
          ∙ lookup-insert key k _ a.accumulator.pending_fragments
          ∙ ap
              (λ t.
                if pair_key.same key k then some t else lookup k a.accumulator.pending_fragments)
              (held_since (lookup key a.fragments) (lookup key a.accumulator.pending_fragments)
                fresh (v.held key))
          ∙ ap (λ o. if pair_key.same key k then some (old.at / millisecond) else o) (v.held k)
          ∙ sym (held_at-if (pair_key.same key k) (some _) (lookup k a.fragments))
          ∙ sym (ap held_at (lookup-insert key k _ a.fragments));
      orphans = (orphans-hold_fragment key (r.time / millisecond) a.accumulator).0 ∙ v.orphans;
      orphan_bytes =
          (orphans-hold_fragment key (r.time / millisecond) a.accumulator).1 ∙ v.orphan_bytes;
    }

release_if-IsValid :
    (b : Bool) (key : FragmentKey) (a : Accounting) → IsValid a → IsValid (release_if b key a)
unfolding release_if
release_if-IsValid false key a v = v
release_if-IsValid true key a v = drop_group-IsValid key a v

finish-IsValid :
    (d : Option ℕ) (p : Option Bytes) (wall : ℕ) (r : Row) (source : String) (key : FragmentKey)
    (b : Bool) (fs : List (ℕ × ℕ)) (a : Accounting)
    → IsValid a
    → IsValid (finish_in d p wall r source key b fs a).1
unfolding finish_in
finish-IsValid (some d) (some p) wall r source key b fs a v =
    elim (Bool-cases (member d a.domains)) [
      | inl m ↦
          rw m (release_if-IsValid b key _ (Same-IsValid (account-Same wall r source d p fs a) v))
      | inr m ↦ rw m (release_if-IsValid b key a v)
    ]
finish-IsValid d p wall r source key b fs a v = release_if-IsValid b key a v

process_udp-IsValid :
    (wall : ℕ) (r : Row) (source : String) (a : Accounting)
    → IsValid a
    → IsValid (process_udp wall r source a).1
unfolding process_udp
process_udp-IsValid wall r source a v =
    let key : FragmentKey = (source, (r.destination, r.ip_id)) in
    let kept = collect-IsValid r key a v in
    elim (Bool-cases (is_fragment r)) [
      | inr e ↦
          rw e (finish-IsValid (port_domain r.port) r.guid_prefix wall r source key false _ a v)
      | inl e ↦ rw e (elim (Bool-cases (is_some r.guid_prefix)) [
        | inl e1 ↦
            rw e1
              (finish-IsValid (port_domain r.port) r.guid_prefix wall r source key true _ _ kept)
        | inr e1 ↦ rw e1 kept
      ])
    ]

process_from-IsValid :
    (s : Option String) (ps : List ℕ) (wall : ℕ) (r : Row) (a : Accounting)
    → IsValid a
    → IsValid (process_from s ps wall r a).1
unfolding process_from
process_from-IsValid none ps wall r a v = v
process_from-IsValid (some source) [] wall r a v = v
process_from-IsValid (some source) (p ∷ ps) wall r a v = elim (Bool-cases (not (p == 17))) [
  | inl e ↦ rw e v
  | inr e ↦ rw e (elim (Bool-cases (r.time == 0)) [
    | inl e1 ↦ rw e1 v
    | inr e1 ↦ rw e1 (process_udp-IsValid wall r source _ (expire-IsValid r.time a v))
  ])
]

pub process-IsValid :
    (wall : ℕ) (r : Row) (a : Accounting) → IsValid a → IsValid (process wall r a).1
unfolding process
process-IsValid wall r a v = process_from-IsValid r.source r.protocols wall r a v

-- A new FrameAccounting over an accumulator that holds back for nothing and has counted no orphans.
start-IsValid :
    (domains : List ℕ) (local_ips : List String) (accumulator : Accumulator) (topics : Topics)
    → accumulator.pending_fragments ≡ []
    → accumulator.orphan_fragment_packets ≡ 0
    → accumulator.orphan_fragment_bytes ≡ 0
    → IsValid (start domains local_ips accumulator topics)
start-IsValid domains local_ips accumulator topics e p b = record {
  unique = tt;
  unique_held = subst Unique (sym e) tt;
  counted = tt;
  held = λ key. ap (lookup key) e;
  orphans = p;
  orphan_bytes = b;
}

process_all-IsValid' :
    (rows : List (ℕ × Row)) (a : Accounting) → IsValid a → IsValid (process_all rows a)
process_all-IsValid' [] a v = v
process_all-IsValid' ((wall, r) ∷ rows) a v =
    process_all-IsValid' rows (process wall r a).1 (process-IsValid wall r a v)

-- Whatever frames a new FrameAccounting processes, over an accumulator that is new too: the accumulator
-- is held back for exactly the datagrams whose fragments are collected, each since its first fragment;
-- every group's packets and bytes are those of its frames; and the accumulator's orphan counters are
-- those of the accounting.
pub process_all-IsValid :
    (domains : List ℕ) (local_ips : List String) (accumulator : Accumulator) (topics : Topics)
    (rows : List (ℕ × Row))
    → accumulator.pending_fragments ≡ []
    → accumulator.orphan_fragment_packets ≡ 0
    → accumulator.orphan_fragment_bytes ≡ 0
    → IsValid (process_all rows (start domains local_ips accumulator topics))
process_all-IsValid domains local_ips accumulator topics rows e p b =
    process_all-IsValid' rows _ (start-IsValid domains local_ips accumulator topics e p b)
