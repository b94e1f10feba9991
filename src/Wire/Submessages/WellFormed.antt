-- ===== src/Wire/Submessages/WellFormed.antt =====
-- How `submessages` ends, and what its items are.
use act_sim_scope_infra.Common.{
  ℕ, zero, suc, ◌+◌, ◌-◌, ◌%◌, ◌≤◌, ◌<◌, ◌≡◌, List, [], ◌∷◌, ◌++◌, not, ◌||◌, none, ltb, ◌==◌,
  length, any, arith, All, inl, inr, Bool-cases,
}
use act_sim_scope_infra.Wire.Bytes.{
  Bytes, Result, ok, err, slice, length-slice, truncated_header, truncated_info_dst,
  truncated_info_src,
}
use act_sim_scope_infra.Wire.Submessages.{
  Yielded, End, done, unfinished, raised, Context, info_destination, dispatch, header, step, resume,
  loop, submessages, starts_with_rtps,
}
use act_sim_scope_infra.Wire.Submessages.Outcome.{
  IsValueError, Holds, Holds-bind, Holds-raise_if, Holds-read_u16, Holds-read_byte,
}
use act_sim_scope_infra.Wire.Submessages.Kinds.{Item}
use act_sim_scope_infra.Wire.Submessages.Kinds.WellFormed.{IsWellFormed, HasLength}
use act_sim_scope_infra.Wire.Submessages.Kinds.Readers.{repair_requests-Holds, sample_items-Holds}

-- The loop's variables hold whole prefixes.
abbrev IsWhole : Context → Type 0
IsWhole c = (length c.prefix ≡ 12) × HasLength 12 c.destination

info_destination-HasLength :
    (body : Bytes) → 12 ≤ length body → HasLength 12 (info_destination body)
unfolding info_destination
info_destination-HasLength body h = elim (Bool-cases (any (λ b. ltb 0 b) (slice body 0 12))) [
  | inl e ↦ rw e (rw length-slice (omega arith))
  | inr e ↦ rw e tt
]

abbrev Good : List Item × Context → Type 0
Good r = All IsWellFormed r.0 × IsWhole r.1

dispatch-Holds :
    (c : Context) (kind flags : ℕ) (body : Bytes)
    → IsWhole c
    → Holds Good (dispatch c kind flags body)
unfolding dispatch
dispatch-Holds c kind flags body w = elim (Bool-cases (kind == 0x0e)) [
  | inl e ↦ rw e (
      Holds-raise_if _ (ltb (length body) 12) truncated_info_dst _ tt
        λ h. (tt, (w.0, info_destination-HasLength body (ground arith))))
  | inr e ↦ rw e (elim (Bool-cases (kind == 0x0c)) [
    | inl e1 ↦ rw e1 (
        Holds-raise_if _ (ltb (length body) 20) truncated_info_src _ tt
          λ h. (tt, (rw length-slice (ground arith), w.1)))
    | inr e1 ↦ rw e1 (elim (Bool-cases (kind == 0x06 || kind == 0x12)) [
      | inl e2 ↦ rw e2 (
          Holds-bind (All IsWellFormed) _ _ _
            (repair_requests-Holds (flags % 2 == 1) body c.prefix c.destination w.0 kind w.1)
            λ items h. (h, w))
      | inr e2 ↦ rw e2 (elim (Bool-cases (kind == 0x15 || kind == 0x16)) [
        | inl e3 ↦ rw e3 (
            Holds-bind (All IsWellFormed) _ _ _
              (sample_items-Holds (flags % 2 == 1) body c.prefix c.destination w.0 kind flags)
              λ items h. (h, w))
        | inr e3 ↦ rw e3 (tt, w)
      ])
    ])
  ])
]

-- A header that is read ends its submessage behind it and inside the payload.
header-Holds :
    (payload : Bytes) (offset : ℕ)
    → offset < length payload
    → Holds (λ h. (offset < h.2) × (h.2 ≤ length payload)) (header payload offset)
unfolding header
header-Holds payload offset h =
    Holds-raise_if _ (ltb (length payload - offset) 4) truncated_header _ tt λ enough.
      Holds-read_byte _ payload offset _ (ground arith) λ kind.
        Holds-read_byte _ payload (offset + 1) _ (ground arith) λ flags.
          Holds-read_u16 _ (flags % 2 == 1) payload (offset + 2) _ (ground arith)
            λ size. ground arith

abbrev Advances : ℕ → ℕ → List Item × Context × ℕ → Type 0
Advances offset size r = All IsWellFormed r.0 × IsWhole r.1 × (offset < r.2) × (r.2 ≤ size)

step-Holds :
    (payload : Bytes) (c : Context) (offset : ℕ)
    → IsWhole c
    → offset < length payload
    → Holds (Advances offset (length payload)) (step payload c offset)
unfolding step
step-Holds payload c offset w h =
    Holds-bind (λ r. (offset < r.2) × (r.2 ≤ length payload)) _ _ _ (header-Holds payload offset h)
      λ r q.
        Holds-bind Good _ _ _ (dispatch-Holds c r.0 r.1 (slice payload (offset + 4) r.2) w)
          λ s good. (good.0, good.1, q.0, q.1)

-- The generator came to its end, by itself or by a `ValueError`.
abbrev pub Ends : End → Type 0
Ends done = Unit
Ends unfinished = ⊥
Ends (raised e) = IsValueError e

abbrev pub IsSound : Yielded → Type 0
IsSound y = All IsWellFormed y.items × Ends y.end

All-append :
    (xs ys : List Item) → All IsWellFormed xs → All IsWellFormed ys → All IsWellFormed (xs ++ ys)
All-append [] ys p q = q
All-append (x ∷ xs) ys p q = (p.0, All-append xs ys p.1 q)

resume-IsSound :
    (offset size : ℕ) (r : Result (List Item × Context × ℕ)) (rest : Context → ℕ → Yielded)
    → Holds (Advances offset size) r
    → ((c : Context) (next : ℕ) → IsWhole c → offset < next → next ≤ size → IsSound (rest c next))
    → IsSound (resume r rest)
unfolding resume
resume-IsSound offset size (err e) rest h k = (tt, h)
resume-IsSound offset size (ok (items, c, next)) rest h k =
    let later = k c next h.1 h.2 h.3 in (All-append items _ h.0 later.0, later.1)

loop-IsSound :
    (f : ℕ) (payload : Bytes) (c : Context) (offset : ℕ)
    → IsWhole c
    → offset ≤ length payload
    → length payload < offset + f
    → IsSound (loop f payload c offset)
unfolding loop
loop-IsSound zero payload c offset w le h = absurd (omega arith)
loop-IsSound (suc f) payload c offset w le h = elim (Bool-cases (ltb offset (length payload))) [
  | inr e ↦ rw (e, loop) (tt, tt)
  | inl e ↦
      rw (e, loop)
        (resume-IsSound offset (length payload) (step payload c offset) (loop f payload)
          (step-Holds payload c offset w (ground arith))
          λ c' next w' lt le'. loop-IsSound f payload c' next w' le' (omega arith))
]

-- For every payload the generator comes to its end, by itself or by a `ValueError`: its fuel is enough
-- and no read is out of range. Each item it yields has whole GUIDs and a positive sequence number, and
-- the fragments of a DATA_FRAG lie inside its sample with their bytes present.
pub submessages-IsSound : (payload : Bytes) → IsSound (submessages payload)
unfolding submessages
submessages-IsSound payload =
    elim (Bool-cases (ltb (length payload) 20 || not (starts_with_rtps payload))) [
      | inl e ↦ rw e (tt, tt)
      | inr e ↦ rw e (
          loop-IsSound (suc (length payload)) payload
            (record { prefix = slice payload 8 20; destination = none }) 20
            (rw length-slice (ground arith), tt) (ground arith) (omega arith))
    ]
