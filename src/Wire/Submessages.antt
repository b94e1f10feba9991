-- ===== src/Wire/Submessages.antt =====
-- `submessages` of debug/scripts/rtps_delivery.py: the RTPS submessages of a UDP payload. The source is
-- a generator: what it yields before it raises is kept beside how it ended.
pub mod Kinds
pub mod Outcome
pub mod WellFormed
mod Tests
use act_sim_scope_infra.Common.{
  ℕ, zero, suc, ◌+◌, ◌-◌, ◌%◌, List, [], ◌∷◌, ◌++◌, Bool, true, false, not, ◌&&◌, ◌||◌, Option,
  none, some, ltb, leb, ◌==◌, if◌then◌else◌, length, any,
}
use act_sim_scope_infra.Wire.Bytes.{
  Bytes, Error, Result, ok, err, ◌>>=◌, ◌>>◌, raise_if, slice, read_byte, read_u16, missing_header,
  truncated_header, truncated_submessage, truncated_info_dst, truncated_info_src,
}
use Kinds.{Item, repair_requests, sample_items}

-- How a generator ended. `unfinished` is the end of the fuel; it is never met.
pub data End : Type 0 where
  done unfinished : End
  raised : Error → End

pub record Yielded : Type 0 where
  pub items : List Item
  pub end : End

-- The loop's variables that one submessage may set, and what it yields.
pub record Context : Type 0 where
  pub prefix : Bytes
  pub destination : Option Bytes

-- `body[:12].hex() if any(body[:12]) else None`
pub info_destination : Bytes → Option Bytes
info_destination body =
    let address = slice body 0 12 in if any (λ b. ltb 0 b) address then some address else none

-- The `if`-chain on `kind`: one submessage.
pub dispatch : Context → ℕ → ℕ → Bytes → Result (List Item × Context)
unfolding info_destination
dispatch c kind flags body =
    let little = flags % 2 == 1 in
    if kind == 0x0e
    then (do
      raise_if (ltb (length body) 12) truncated_info_dst
      ok ([], record c { destination = info_destination body }))
    else if kind == 0x0c
    then (do
      raise_if (ltb (length body) 20) truncated_info_src
      ok ([], record c { prefix = slice body 8 20 }))
    else if kind == 0x06 || kind == 0x12
    then (do items ← repair_requests little kind c.prefix c.destination body; ok (items, c))
    else if kind == 0x15 || kind == 0x16
    then (do items ← sample_items little kind flags c.prefix c.destination body; ok (items, c))
    else ok ([], c)

-- The header of the submessage at `offset`, and its end: `(kind, flags, end)`.
pub header : Bytes → ℕ → Result (ℕ × ℕ × ℕ)
header payload offset = do
  raise_if (ltb (length payload - offset) 4) truncated_header
  kind ← read_byte payload offset
  flags ← read_byte payload (offset + 1)
  size ← read_u16 (flags % 2 == 1) payload (offset + 2)
  let sized = ltb 0 size || (kind == 0x01 || kind == 0x09)
  let end = if sized then offset + 4 + size else length payload
  raise_if (ltb (length payload) end) truncated_submessage
  ok (kind, flags, end)

-- One round of the loop: what it yields, the context and the next offset.
pub step : Bytes → Context → ℕ → Result (List Item × Context × ℕ)
unfolding header dispatch
step payload c offset = do
  h ← header payload offset
  r ← dispatch c h.0 h.1 (slice payload (offset + 4) h.2)
  ok (r.0, r.1, h.2)

-- What one round yields, and what the rounds after it yield.
pub resume : Result (List Item × Context × ℕ) → (Context → ℕ → Yielded) → Yielded
resume (err e) rest = record { items = []; end = raised e }
resume (ok (items, c, next)) rest =
    let later = rest c next in record { items = items ++ later.items; end = later.end }

-- `while offset < len(payload)`
pub loop : ℕ → Bytes → Context → ℕ → Yielded
unfolding step resume
loop zero payload c offset = record { items = []; end = unfinished }
loop (suc f) payload c offset = elim (ltb offset (length payload)) [
  | false ↦ record { items = []; end = done }
  | true ↦ resume (step payload c offset) (loop f payload)
]

-- `payload[:4] != b"RTPS"`
pub starts_with_rtps : Bytes → Bool
starts_with_rtps (a ∷ b ∷ c ∷ d ∷ rest) = a == b'R' && (b == b'T' && (c == b'P' && d == b'S'))
starts_with_rtps other = false

unfoldable pub submessages : Bytes → Yielded
unfolding loop starts_with_rtps
submessages payload =
    if ltb (length payload) 20 || not (starts_with_rtps payload)
    then record { items = []; end = raised missing_header }
    else loop (suc (length payload)) payload
        (record { prefix = slice payload 8 20; destination = none }) 20
