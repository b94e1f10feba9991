-- ===== src/Wire/Submessages/Kinds.antt =====
-- `submessages` of debug/scripts/rtps_delivery.py: the branches for ACKNACK and NACK_FRAG, and for DATA
-- and DATA_FRAG.
pub mod Readers
pub mod WellFormed
use act_sim_scope_infra.Common.{
  ℕ, zero, suc, ◌+◌, ◌-◌, ◌*◌, ◌/◌, ◌%◌, ◌^◌, min, List, [], ◌∷◌, ◌++◌, map, Bool, true, false, not,
  ◌&&◌, ◌||◌, Option, none, some, ltb, leb, ◌==◌, if◌then◌else◌, length, drop,
}
use act_sim_scope_infra.Wire.Bytes.{
  Bytes, Result, ok, err, ◌>>=◌, ◌>>◌, raise_if, slice, read_u16, read_u32, bit_set,
  truncated_acknack, invalid_bitmap, invalid_requested, truncated_data, invalid_inline_offset,
  truncated_inline, truncated_parameter, invalid_sequence, invalid_dimensions, outside_sample,
  truncated_fragment, struct_error,
}

pub record Fragment : Type 0 where
  pub first : ℕ
  pub count : ℕ
  pub fragment_size : ℕ
  pub sample_size : ℕ

-- A GUID is kept as its sixteen bytes, a prefix as its twelve.
pub record Sample : Type 0 where
  pub writer_guid : Bytes
  pub sequence : ℕ
  pub destination_prefix : Option Bytes
  pub reader_id : Bytes
  pub payload : Bytes
  pub fragment : Option Fragment

pub data Item : Type 0 where
  repair_request : Bytes → Bytes → ℕ → Item
  sample : Sample → Item

-- `(high << 32) + low` for a signed `high`, if it is positive; `none` is any value of 0 or less.
pub sequence_number : ℕ → ℕ → Option ℕ
sequence_number high low =
    let n = high * 2 ^ 32 + low in
    if ltb high (2 ^ 31) then (if n == 0 then none else some n) else none

-- `[index for index in range(bits) if word(index) & (1 << (31 - index % 32))]`, from `index` on, with
-- `remaining` indices to go
pub requested : Bool → Bytes → ℕ → ℕ → ℕ → Result (List ℕ)
unfolding bit_set
requested little body base zero index = ok []
requested little body base (suc remaining) index = do
  word ← read_u32 little body (base + 4 * (index / 32))
  rest ← requested little body base remaining (index + 1)
  ok (if bit_set word (31 - index % 32) then index ∷ rest else rest)

-- The items that a request makes, with `destination` and the positive sequence number known.
pub requests : ℕ → Bytes → Bytes → ℕ → List ℕ → List Item
requests kind writer reader sequence wanted =
    map (λ n. repair_request writer reader n)
      (if kind == 0x06 then map (λ i. sequence + i) wanted else sequence ∷ [])

-- `if requested and sequence <= 0` and the loop below it
pub answer : ℕ → Bytes → Option Bytes → Bytes → Option ℕ → List ℕ → Result (List Item)
unfolding requests
answer kind prefix destination body sequence [] = ok []
answer kind prefix destination body none (i ∷ is) = err invalid_requested
answer kind prefix none body (some n) (i ∷ is) = ok []
answer kind prefix (some d) body (some n) (i ∷ is) =
    ok (requests kind (d ++ slice body 4 8) (prefix ++ slice body 0 4) n (i ∷ is))

-- `kind in (0x06, 0x12)`
unfoldable pub repair_requests : Bool → ℕ → Bytes → Option Bytes → Bytes → Result (List Item)
unfolding answer sequence_number requested
repair_requests little kind prefix destination body = do
  let minimum = if kind == 0x06 then 24 else 28
  raise_if (ltb (length body) minimum) truncated_acknack
  high ← read_u32 little body 8
  low ← read_u32 little body 12
  let bitmap_offset = if kind == 0x06 then 20 else 24
  bits ← read_u32 little body (bitmap_offset - 4)
  raise_if (ltb 256 bits || ltb (length body) (minimum + 4 * ((bits + 31) / 32))) invalid_bitmap
  wanted ← requested little body bitmap_offset bits 0
  answer kind prefix destination body (sequence_number high low) wanted

-- The `while True` over the inline QoS parameters, from `cursor`. The fuel is never used up, and
-- `struct_error` never met.
pub skip_inline : ℕ → Bool → Bytes → ℕ → Result ℕ
skip_inline zero little body cursor = err struct_error
skip_inline (suc f) little body cursor = do
  raise_if (ltb (length body) (cursor + 4)) truncated_inline
  pid ← read_u16 little body cursor
  size ← read_u16 little body (cursor + 2)
  let next = cursor + 4 + (size + 3) / 4 * 4
  let rest = skip_inline f little body next
  (if pid == 1
      then ok (cursor + 4)
      else if ltb (length body) next
      then err truncated_parameter
      else rest)

-- The dimensions of a DATA_FRAG, checked against the payload that it carries.
pub fragment_of : Bool → Bytes → Bytes → Result Fragment
fragment_of little body payload = do
  first ← read_u32 little body 20
  count ← read_u16 little body 24
  fragment_size ← read_u16 little body 26
  sample_size ← read_u32 little body 28
  raise_if (first == 0 || (count == 0 || (fragment_size == 0 || sample_size == 0)))
      invalid_dimensions
  let total = (sample_size + fragment_size - 1) / fragment_size
  raise_if (ltb total (first + count - 1) || ltb (16 * 1024 * 1024) sample_size) outside_sample
  let needed = min (count * fragment_size) (sample_size - (first - 1) * fragment_size)
  raise_if (ltb (length payload) needed) truncated_fragment
  ok (record {
    first = first;
    count = count;
    fragment_size = fragment_size;
    sample_size = sample_size;
  })

-- `if kind == 0x16: ... item.update(...)`
pub fragment_if : Bool → Bool → Bytes → Bytes → Result (Option Fragment)
unfolding fragment_of
fragment_if false little body payload = ok none
fragment_if true little body payload = do f ← fragment_of little body payload; ok (some f)

pub positive : Option ℕ → Result ℕ
positive none = err invalid_sequence
positive (some n) = ok n

-- `if has_data:` and below
pub data_item : Bool → ℕ → Bytes → Option Bytes → Bytes → ℕ → Result (List Item)
unfolding fragment_if positive sequence_number
data_item little kind prefix destination body cursor = do
  high ← read_u32 little body 12
  low ← read_u32 little body 16
  sequence ← positive (sequence_number high low)
  let payload = drop cursor body
  fragment ← fragment_if (kind == 0x16) little body payload
  ok (
      sample (record {
        writer_guid = prefix ++ slice body 8 12;
        sequence = sequence;
        destination_prefix = destination;
        reader_id = slice body 4 8;
        payload = payload;
        fragment = fragment;
      })
      ∷ [])

-- `kind in (0x15, 0x16)`. The D flag of DATA and the K flag of DATA_FRAG are one bit with opposite
-- meanings.
unfoldable pub sample_items : Bool → ℕ → ℕ → Bytes → Option Bytes → Bytes → Result (List Item)
unfolding skip_inline data_item
sample_items little kind flags prefix destination body = do
  let minimum = if kind == 0x16 then 32 else 20
  raise_if (ltb (length body) minimum) truncated_data
  octets ← read_u16 little body 2
  let inline_offset = 4 + octets
  raise_if (not (leb minimum inline_offset && leb inline_offset (length body)))
      invalid_inline_offset
  cursor ←
      (if bit_set flags 1
        then skip_inline (suc (length body)) little body inline_offset
        else ok inline_offset)
  let has_data = if kind == 0x16 then not (bit_set flags 2) else bit_set flags 2
  (if has_data then data_item little kind prefix destination body cursor else ok [])
