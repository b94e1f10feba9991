-- ===== src/Wire/Capture/Parts/Whole.antt =====
-- The parts of a sample, and what its fragments make of them.
use native.Mathlib.Nat.{div-add-mod, mod-lt, mul_comm}
use act_sim_scope_infra.Common.{
  ℕ, zero, suc, ◌+◌, ◌-◌, ◌*◌, ◌≤◌, ◌<◌, ◌≡◌, refl, ap, sym, ◌∙◌, [], ◌∷◌, ◌++◌, true, ◌&&◌, ◌||◌,
  leb, ltb, Option, none, some, ◌==◌, length, take, Dict, lookup, lookup-insert, contains, insert,
  ==_iff, Unique, insert-Unique, Within, insert-Within, contains_all, length-Within, nat_key, arith,
  inl, inr, Bool-cases, Option-cases, is_some, some-injective,
}
use act_sim_scope_infra.Wire.Bytes.{Bytes, ok, slice}
use act_sim_scope_infra.Wire.Bytes.Slices.{
  slice-slice, slice-append, slice_all, slice_none, take_all,
}
use act_sim_scope_infra.Wire.Submessages.Kinds.{Fragment}
use act_sim_scope_infra.Wire.Capture.Parts.{
  Group, put_parts, join_parts, part_count, Assembly, waiting, failed, complete, finish_parts,
  group_of, assemble,
}

slice_eq : (l : Bytes) (a b c d : ℕ) → a ≡ c → b ≡ d → slice l a b ≡ slice l c d
slice_eq l a b c d e h = ap (λ x. slice l x b) e ∙ ap (λ x. slice l c x) h

-- The parts that are held before a fragment arrives.
abbrev pub parts_of : Option Group → Dict ℕ Bytes
parts_of none = []
parts_of (some g) = g.parts

-- Every part of the fragment is put in, and those before it are kept.
put_parts-contains :
    (k : ℕ) (f : Fragment) (payload : Bytes) (n i : ℕ) (d : Dict ℕ Bytes)
    → contains k (put_parts n i f payload d)
      ≡ (contains k d || (leb (f.first + i) k && ltb k (f.first + i + n)))
unfolding put_parts
put_parts-contains k f payload zero i d = ground arith
put_parts-contains k f payload (suc n) i d =
    let part = slice payload (i * f.fragment_size) (i * f.fragment_size + f.fragment_size) in
    ground (
      arith,
      put_parts-contains k f payload n (i + 1) (insert (f.first + i) part d),
      lookup-insert (f.first + i) k part d,
      ==_iff (f.first + i) k,
    )

module _ (whole : Bytes) (fs : ℕ) where
  -- The part behind the first n parts.
  abbrev part_behind : ℕ → Bytes
  part_behind n = slice whole (n * fs) (n * fs + fs)

  abbrev total_parts : ℕ
  total_parts = part_count (length whole) fs

  abbrev ArePartsOf : Dict ℕ Bytes → Type 0
  ArePartsOf [] = Unit
  ArePartsOf ((n, v) ∷ d) = ((m : ℕ) → n ≡ m + 1 → v ≡ part_behind m) × ArePartsOf d

  record Good (d : Dict ℕ Bytes) : Type 0 where
    unique : Unique d
    within : Within total_parts d
    parts : ArePartsOf d

  insert-ArePartsOf :
      (k : ℕ) (v : Bytes) (d : Dict ℕ Bytes)
      → ((m : ℕ) → k ≡ m + 1 → v ≡ part_behind m)
      → ArePartsOf d
      → ArePartsOf (insert k v d)
  insert-ArePartsOf k v [] h p = (h, tt)
  insert-ArePartsOf k v ((j, u) ∷ d) h p = elim (Bool-cases (j == k)) [
    | inl e ↦ rw e ((λ m same. h m (ground (arith, e, same))), p.1)
    | inr e ↦ rw e (p.0, insert-ArePartsOf k v d h p.1)
  ]

  insert-Good :
      (m : ℕ) (v : Bytes) (d : Dict ℕ Bytes)
      → m + 1 ≤ total_parts
      → v ≡ part_behind m
      → Good d
      → Good (insert (m + 1) v d)
  insert-Good m v d within e g = record {
    unique = insert-Unique (m + 1) v d g.unique;
    within = insert-Within total_parts (m + 1) v d (omega arith) within g.within;
    parts =
        insert-ArePartsOf (m + 1) v d (λ n same. e ∙ ap part_behind (omega (arith, same))) g.parts;
  }

  -- A DATA_FRAG submessage of the sample: `before` parts come before those that it carries.
  pub record IsFragment (before : ℕ) (f : Fragment) (payload : Bytes) : Type 0 where
    pub first : f.first ≡ before + 1
    pub fits : before + f.count ≤ part_count (length whole) fs
    pub size : f.sample_size ≡ length whole
    pub fragment_size : f.fragment_size ≡ fs
    pub carries : payload ≡ slice whole (before * fs) ((before + f.count) * fs)

  part-eq :
      (before count i : ℕ) (payload : Bytes)
      → payload ≡ slice whole (before * fs) ((before + count) * fs)
      → i + 1 ≤ count
      → slice payload (i * fs) (i * fs + fs) ≡ part_behind (before + i)
  part-eq before count i payload e h =
      let shorter : (i + 1) * fs ≤ count * fs = grind (arith, h) in
      ap (λ p. slice p (i * fs) (i * fs + fs)) e
      ∙ slice-slice whole (before * fs) ((before + count) * fs) (i * fs) (i * fs + fs)
          (omega (arith, shorter))
      ∙ slice_eq whole _ _ ((before + i) * fs) ((before + i) * fs + fs) (omega arith) (omega arith)

  put_parts-Good :
      (before : ℕ) (f : Fragment) (payload : Bytes) (n i : ℕ) (d : Dict ℕ Bytes)
      → IsFragment before f payload
      → i + n ≡ f.count
      → Good d
      → Good (put_parts n i f payload d)
  unfolding put_parts
  put_parts-Good before f payload zero i d fr e g = g
  put_parts-Good before f payload (suc n) i d fr e g =
      let key : f.first + i ≡ before + i + 1 = omega (arith, fr.first) in
      put_parts-Good before f payload n (i + 1) _ fr (omega (arith, e)) (
        rw (key, fr.fragment_size)
          (insert-Good (before + i) _ d (omega (arith, fr.fits, e))
            (part-eq before f.count i payload fr.carries (omega (arith, e))) g))

  lookup-ArePartsOf :
      (m : ℕ) (v : Bytes) (d : Dict ℕ Bytes)
      → lookup (m + 1) d ≡ some v
      → ArePartsOf d
      → v ≡ part_behind m
  lookup-ArePartsOf m v [] e p = absurd (cc e)
  lookup-ArePartsOf m v ((j, u) ∷ d) e p = elim (Bool-cases (j == (m + 1))) [
    | inl s ↦ sym (some-injective u v (rw s at e)) ∙ p.0 m (ground (arith, s))
    | inr s ↦ lookup-ArePartsOf m v d (rw s at e) p.1
  ]

  join_parts-eq :
      (m n : ℕ) (d : Dict ℕ Bytes)
      → Good d
      → length d ≡ total_parts
      → m + n ≤ total_parts
      → join_parts (m + 1) n d ≡ ok (slice whole (m * fs) ((m + n) * fs))
  unfolding join_parts
  join_parts-eq m zero d g full h = ap ok (
      sym (
        slice_eq whole (m * fs) ((m + 0) * fs) (m * fs) (m * fs) refl (omega arith)
        ∙ slice_none whole (m * fs)))
  join_parts-eq m (suc n) d g full h = elim (Option-cases (lookup (m + 1) d)) [
    | inl e ↦ absurd (
        cc (
          ap is_some e,
          contains_all total_parts (m + 1) d g.within g.unique full (omega arith)
              (omega (arith, h)),
        ))
    | inr (v, e) ↦
        let part = lookup-ArePartsOf m v d e g.parts in
        let more = join_parts-eq (m + 1) n d g full (omega (arith, h)) in
        rw (e, join_parts, more)
          (ap ok (
            ap (λ p. p ++ slice whole ((m + 1) * fs) ((m + 1 + n) * fs)) part
            ∙ ap (λ p. p ++ slice whole ((m + 1) * fs) ((m + 1 + n) * fs))
                (slice_eq whole (m * fs) (m * fs + fs) (m * fs) ((m + 1) * fs) refl (omega arith))
            ∙ slice-append whole (m * fs) ((m + 1) * fs) ((m + 1 + n) * fs) (omega arith)
                (omega arith)
            ∙ slice_eq whole (m * fs) ((m + 1 + n) * fs) (m * fs) ((m + suc n) * fs) refl
                (omega arith)))
  ]

  -- A group that holds parts of the sample, each number once.
  pub record IsPartial (g : Group) : Type 0 where
    pub size : g.size ≡ length whole
    pub fragment_size : g.fragment_size ≡ fs
    good : Good g.parts

  abbrev pub PartialIfAny : Option Group → Type 0
  PartialIfAny none = Unit
  PartialIfAny (some g) = IsPartial g

  -- Parts are missing, where those held are the ones before and the ones that the fragment carries, or the
  -- payload is the sample; there is no error.
  abbrev pub Rebuilds : Dict ℕ Bytes → ℕ → ℕ → Assembly → Type 0
  Rebuilds old before count (waiting g) =
      IsPartial g
      × (length g.parts < part_count (length whole) fs)
      × ((k : ℕ)
          → contains k g.parts ≡ (contains k old || (leb (before + 1) k && leb k (before + count))))
  Rebuilds old before count (failed e g) = ⊥
  Rebuilds old before count (complete payload at) = payload ≡ whole

  group_of-IsPartial :
      (t before : ℕ) (f : Fragment) (payload : Bytes) (o : Option Group)
      → IsFragment before f payload
      → PartialIfAny o
      → IsPartial (group_of t f o)
  group_of-IsPartial t before f payload none fr p = record {
    size = fr.size;
    fragment_size = fr.fragment_size;
    good = record { unique = tt; within = tt; parts = tt };
  }
  group_of-IsPartial t before f payload (some g) fr p = p

  total_parts-enough : 1 ≤ fs → length whole ≤ total_parts * fs
  total_parts-enough h = omega (
    arith,
    div-add-mod (length whole + fs - 1) fs,
    mod-lt (length whole + fs - 1) {m = fs} (omega (arith, h)),
    h,
    mul_comm total_parts fs,
  )

  finish_parts-Rebuilds :
      (g : Group) (old : Dict ℕ Bytes) (before count : ℕ)
      → 1 ≤ fs
      → IsPartial g
      → length g.parts ≡ total_parts
      → Rebuilds old before count (finish_parts g (join_parts 1 total_parts g.parts))
  unfolding finish_parts
  finish_parts-Rebuilds g old before count h p full =
      let joined = join_parts-eq 0 total_parts g.parts p.good full (omega arith) in
      rw (joined, finish_parts)
        (ap (take g.size) (
            slice_eq whole (0 * fs) ((0 + total_parts) * fs) 0 (total_parts * fs) (omega arith)
              (omega arith)
            ∙ slice_all whole (total_parts * fs) (total_parts-enough h))
          ∙ take_all whole g.size (sym p.size))

  old_parts : (t : ℕ) (f : Fragment) (o : Option Group) → (group_of t f o).parts ≡ parts_of o
  old_parts t f none = refl
  old_parts t f (some g) = refl

  -- When a group holds nothing but parts of a sample, and a further DATA_FRAG of it arrives, with any of
  -- its parts, seen before or not and in any order, then either parts are still missing, and the group
  -- goes on to hold nothing but parts of the sample, just those held before and those that arrive; or the
  -- payload that is put together is the sample, byte for byte. No error is raised: the dimensions agree,
  -- and no part is looked up in vain.
  pub assemble-Rebuilds :
      (t before : ℕ) (f : Fragment) (payload : Bytes) (o : Option Group)
      → 1 ≤ fs
      → IsFragment before f payload
      → PartialIfAny o
      → Rebuilds (parts_of o) before f.count (assemble t f payload o)
  unfolding assemble
  assemble-Rebuilds t before f payload o h fr p =
      let old = group_of t f o in
      let part = group_of-IsPartial t before f payload o fr p in
      let parts = put_parts f.count 0 f payload old.parts in
      let good = put_parts-Good before f payload f.count 0 old.parts fr (omega arith) part.good in
      let g : Group = record old { parts = parts } in
      let is_partial : IsPartial g = record {
        size = part.size;
        fragment_size = part.fragment_size;
        good = good;
      } in
      let total : part_count old.size old.fragment_size ≡ total_parts =
        ap (λ s. part_count s old.fragment_size) part.size
        ∙ ap (part_count (length whole)) part.fragment_size in
      let agree : (old.size == f.sample_size && old.fragment_size == f.fragment_size) ≡ true =
        ground (arith, part.size, part.fragment_size, fr.size, fr.fragment_size) in
      let entered : (k : ℕ)
          → contains k parts
            ≡ (contains k (parts_of o) || (leb (before + 1) k && leb k (before + f.count))) =
        λ k.
          grind (
            arith,
            put_parts-contains k f payload f.count 0 old.parts,
            fr.first,
            old_parts t f o,
          ) in
      rw (agree, total)
        (elim (Bool-cases (length parts == total_parts)) [
          | inl e ↦
              rw e (
                finish_parts-Rebuilds g (parts_of o) before f.count h is_partial
                  (ground (arith, e)))
          | inr e ↦ rw e (
            is_partial,
            ground (arith, e, length-Within total_parts parts good.within good.unique),
            λ k. entered k,
          )
        ])
