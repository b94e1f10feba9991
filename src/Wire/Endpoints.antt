-- ===== src/Wire/Endpoints.antt =====
-- `endpoint_metadata` of debug/scripts/rtps_delivery.py: what an SEDP announcement says of a writer. A
-- topic's name is kept as the bytes of its UTF-8 text.
pub mod Sound
mod Tests
use act_sim_scope_infra.Common.{
  ℕ, zero, suc, ◌+◌, ◌-◌, ◌*◌, ◌/◌, List, [], ◌∷◌, Bool, true, false, not, ◌&&◌, ◌||◌, Option, none,
  some, ltb, leb, ◌==◌, if◌then◌else◌, length, take, drop,
}
use act_sim_scope_infra.Wire.Bytes.{
  Bytes, Error, Result, ok, err, ◌>>=◌, ◌>>◌, raise_if, slice, read_u16, read_u32, last_byte,
  truncated_sedp, invalid_topic_name, invalid_utf8, truncated_reliability, unterminated_sedp,
  struct_error,
}

pub data Reliability : Type 0 where
  best_effort reliable unknown : Reliability

-- `result`, with `none` for a key that is not set
pub record Parameters : Type 0 where
  pub writer_guid : Option Bytes
  pub topic : Option Bytes
  pub reliability : Option Reliability

pub record Metadata : Type 0 where
  pub writer_guid : Bytes
  pub topic : Bytes
  pub reliability : Reliability

-- How many bytes of a UTF-8 character are to come, and the bounds of the next one.
abbrev pub Utf8State : Type 0
Utf8State = ℕ × (ℕ × ℕ)

abbrev pub between : ℕ → ℕ → ℕ → Bool
between a b n = leb a n && leb n b

-- The first byte of a character.
abbrev pub utf8_first : ℕ → Option Utf8State
utf8_first b =
    if ltb b 0x80
    then some (0, (0, 0))
    else if between 0xc2 0xdf b
    then some (1, (0x80, 0xbf))
    else if b == 0xe0
    then some (2, (0xa0, 0xbf))
    else if b == 0xed
    then some (2, (0x80, 0x9f))
    else if between 0xe1 0xef b
    then some (2, (0x80, 0xbf))
    else if b == 0xf0
    then some (3, (0x90, 0xbf))
    else if between 0xf1 0xf3 b
    then some (3, (0x80, 0xbf))
    else if b == 0xf4
    then some (3, (0x80, 0x8f))
    else none

abbrev pub utf8_next : Utf8State → ℕ → Option Utf8State
utf8_next (zero, bounds) b = utf8_first b
utf8_next (suc n, (low, high)) b = if between low high b then some (n, (0x80, 0xbf)) else none

pub utf8_from : Utf8State → Bytes → Bool
utf8_from (n, bounds) [] = n == 0
utf8_from st (b ∷ l) = elim (utf8_next st b) [ none ↦ false | some next ↦ utf8_from next l ]

-- Whether `.decode("utf-8")` does not raise.
pub is_utf8 : Bytes → Bool
unfolding utf8_from
is_utf8 = utf8_from (0, (0, 0))

abbrev pub reliability_of : ℕ → Reliability
reliability_of n =
    if n == 1
    then Reliability.best_effort
    else if n == 2
    then Reliability.reliable
    else Reliability.unknown

-- `pid == 0x0005 and length >= 4`
pub topic_name : Bool → ℕ → Bytes → Result Bytes
unfolding is_utf8
topic_name little size value = do
  n ← read_u32 little value 0
  raise_if (not (leb 1 n && leb n (size - 4))) invalid_topic_name
  let name = slice value 4 (4 + n - 1)
  raise_if (not (is_utf8 name)) invalid_utf8
  ok name

-- `pid == 0x001a`
pub reliability_policy : Bool → ℕ → Bytes → Result Reliability
reliability_policy little size value = do
  raise_if (ltb size 12) truncated_reliability
  kind ← read_u32 little value 0
  ok (reliability_of kind)

-- The `if`-chain on `pid`, for one parameter.
pub parameter : Bool → ℕ → ℕ → Bytes → Parameters → Result Parameters
unfolding topic_name reliability_policy
parameter little pid size value p =
    if pid == 0x005a && size == 16
    then ok (record p { writer_guid = some value })
    else if pid == 0x0005 && leb 4 size
    then (do name ← topic_name little size value; ok (record p { topic = some name }))
    else if pid == 0x001a
    then (do
      policy ← reliability_policy little size value
      ok (record p { reliability = some policy }))
    else ok p

-- One round of the loop: the parameters, and the next offset or the end of the list.
pub parameter_at : Bool → Bytes → ℕ → Parameters → Result (Parameters × Option ℕ)
unfolding parameter
parameter_at little payload offset p = do
  pid ← read_u16 little payload offset
  size ← read_u16 little payload (offset + 2)
  let value = slice payload (offset + 4) (offset + 4 + size)
  (if pid == 1 then ok (p, none) else (do
    raise_if (not (length value == size)) truncated_sedp
    q ← parameter little pid size value p
    ok (q, some (offset + 4 + (size + 3) / 4 * 4))))

pub next_parameter :
    Result (Parameters × Option ℕ) → (Parameters → ℕ → Result Parameters) → Result Parameters
next_parameter (err e) rest = err e
next_parameter (ok (p, none)) rest = ok p
next_parameter (ok (p, some offset)) rest = rest p offset

-- `while offset + 4 <= len(payload)`; without its end the list is unterminated. The fuel is never used
-- up, and `struct_error` never met.
pub parameter_list : ℕ → Bool → Bytes → ℕ → Parameters → Result Parameters
unfolding parameter_at next_parameter
parameter_list zero little payload offset p = err struct_error
parameter_list (suc f) little payload offset p = elim (leb (offset + 4) (length payload)) [
  | false ↦ err unterminated_sedp
  | true ↦
      next_parameter (parameter_at little payload offset p)
        (λ q next. parameter_list f little payload next q)
]

abbrev pub or_reliable : Option Reliability → Reliability
or_reliable none = Reliability.reliable
or_reliable (some r) = r

-- `result.get("writer_guid", "").endswith(("02", "03")) and result.get("topic")`
pub endpoint_of : Parameters → Option Metadata
endpoint_of p = elim p.writer_guid [
  | none ↦ none
  | some guid ↦ elim p.topic [
    | none ↦ none
    | some [] ↦ none
    | some (b ∷ name) ↦
        if last_byte guid == 0x02 || last_byte guid == 0x03
        then some (record {
          writer_guid = guid;
          topic = b ∷ name;
          reliability = or_reliable p.reliability;
        })
        else none
  ]
]

-- `payload[:2] in (b"\x00\x02", b"\x00\x03")`, with the byte order that it says
pub encapsulation : Bytes → Option Bool
encapsulation (zero ∷ b ∷ rest) =
    if b == 0x02 then some false else if b == 0x03 then some true else none
encapsulation other = none

unfoldable pub endpoint_metadata : Bytes → Result (Option Metadata)
unfolding encapsulation parameter_list endpoint_of
endpoint_metadata payload =
    if ltb (length payload) 4 then ok none else elim (encapsulation payload) [
      | none ↦ ok none
      | some little ↦ do
        p ←
            parameter_list (suc (length payload)) little payload 4
              (record { writer_guid = none; topic = none; reliability = none })
        ok (endpoint_of p)
    ]
