-- ===== src/Wire/Submessages/Kinds/Readers.antt =====
-- The two branches of `submessages` that yield items: what they return for a body of any length.
use act_sim_scope_infra.Common.{
  ℕ, suc, ◌+◌, ◌-◌, ◌*◌, ◌/◌, ◌≤◌, ◌≡◌, Bool, Option, some, ltb, leb, ◌==◌, if◌then◌else◌, length,
  arith, All, drop, true, false, ◌&&◌, not, ◌||◌,
}
use act_sim_scope_infra.Wire.Bytes.{
  Bytes, ok, slice, length-slice, bit_set, truncated_acknack, invalid_bitmap, truncated_data,
  invalid_inline_offset,
}
use act_sim_scope_infra.Wire.Submessages.Outcome.{
  Holds, Holds-bind, Holds-raise_if, Holds-read_u16, Holds-read_u32,
}
use act_sim_scope_infra.Wire.Submessages.Kinds.{
  repair_requests, skip_inline, fragment_if, data_item, sample_items, positive, sequence_number,
}
use act_sim_scope_infra.Wire.Submessages.Kinds.WellFormed.{
  Fits, IsWellFormed, HasLength, fragment_of-Holds, skip_inline-Holds, requested-Holds,
  answer-Holds, sequence_number-pos, length-guid,
}

module _ (little : Bool) (body prefix : Bytes) (d : Option Bytes) (whole : length prefix ≡ 12) where
  pub repair_requests-Holds :
      (kind : ℕ)
      → HasLength 12 d
      → Holds (All IsWellFormed) (repair_requests little kind prefix d body)
  unfolding repair_requests
  repair_requests-Holds kind dest =
      Holds-raise_if _ (ltb (length body) (if kind == 0x06 then 24 else 28)) truncated_acknack _ tt
        λ enough. Holds-read_u32 _ little body 8 _ (ground arith) λ high.
          Holds-read_u32 _ little body 12 _ (ground arith) λ low.
            Holds-read_u32 _ little body ((if kind == 0x06 then 20 else 24) - 4) _ (ground arith)
              λ bits.
                Holds-raise_if _
                  (ltb 256 bits
                    || ltb (length body)
                        ((if kind == 0x06 then 24 else 28) + 4 * ((bits + 31) / 32)))
                  invalid_bitmap _ tt
                  λ fits.
                    Holds-bind (λ l. Unit) _ _ _
                      (requested-Holds little body (if kind == 0x06 then 20 else 24) bits 0
                        (ground arith))
                      λ wanted _.
                        answer-Holds kind prefix d body (sequence_number high low) wanted whole dest
                          (ground arith) (sequence_number-pos high low)

  fragment_if-Holds :
      (b : Bool) (payload : Bytes)
      → (if b then 32 else 20) ≤ length body
      → Holds (Fits payload) (fragment_if b little body payload)
  unfolding fragment_if
  fragment_if-Holds false payload h = tt
  fragment_if-Holds true payload h =
      Holds-bind (λ f. Fits payload (some f)) _ _ _ (fragment_of-Holds little body payload h)
        λ f p. p

  positive-Holds : (high low : ℕ) → Holds (λ n. 1 ≤ n) (positive (sequence_number high low))
  unfolding positive sequence_number
  positive-Holds high low = ground arith

  data_item-Holds :
      (kind cursor : ℕ)
      → (if kind == 0x16 then 32 else 20) ≤ length body
      → Holds (All IsWellFormed) (data_item little kind prefix d body cursor)
  unfolding data_item
  data_item-Holds kind cursor h = Holds-read_u32 _ little body 12 _ (ground arith) λ high.
      Holds-read_u32 _ little body 16 _ (ground arith) λ low.
        Holds-bind (λ n. 1 ≤ n) _ _ _ (positive-Holds high low)
          λ n pos.
            Holds-bind (Fits (drop cursor body)) _ _ _
              (fragment_if-Holds (kind == 0x16) (drop cursor body) h)
              λ f fits. (
                (
                  length-guid prefix (slice body 8 12) 12 4 whole (rw length-slice (ground arith)),
                  pos,
                  rw length-slice (ground arith),
                  fits,
                ),
                tt,
              )

  cursor-Holds :
      (flags octets : ℕ)
      → 4 + octets ≤ length body
      → Holds
          (λ c. c ≤ length body)
          (if bit_set flags 1
            then skip_inline (suc (length body)) little body (4 + octets)
            else ok (4 + octets))
  cursor-Holds flags octets h =
      ground (arith, skip_inline-Holds (suc (length body)) little body (4 + octets))

  pub sample_items-Holds :
      (kind flags : ℕ) → Holds (All IsWellFormed) (sample_items little kind flags prefix d body)
  unfolding sample_items
  sample_items-Holds kind flags =
      Holds-raise_if _ (ltb (length body) (if kind == 0x16 then 32 else 20)) truncated_data _ tt
        λ enough. Holds-read_u16 _ little body 2 _ (ground arith) λ octets.
          Holds-raise_if _
            (not (
              leb (if kind == 0x16 then 32 else 20) (4 + octets) && leb (4 + octets) (length body)))
            invalid_inline_offset _ tt
            λ inside.
              Holds-bind (λ c. c ≤ length body) _ _ _ (cursor-Holds flags octets (ground arith))
                λ cursor _. ground (arith, data_item-Holds kind cursor)
