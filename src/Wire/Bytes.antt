-- ===== src/Wire/Bytes.antt =====
-- `bytes`, slices and `struct.unpack_from`, as debug/scripts/rtps_delivery.py uses them. A byte is a
-- number, and a hexadecimal text (`.hex()`) is kept as the bytes that it spells.
pub mod Slices
use act_sim_scope_infra.Common.{
  ℕ, zero, suc, ◌+◌, ◌-◌, ◌*◌, ◌/◌, ◌%◌, ◌^◌, ◌≤◌, ◌≡◌, refl, min, ap, ◌∙◌, List, [], ◌∷◌, Bool,
  true, false, none, some, ◌==◌, if◌then◌else◌, length, get_elem?, take, drop, length-take,
  length-drop, arith,
}

abbrev pub Bytes : Type 0
Bytes = List ℕ

-- What a reader of a frame raises. `struct_error` is the `struct.error` of a read out of range; the
-- others are the `ValueError`s.
pub data Error : Type 0 where
  struct_error missing_header truncated_header truncated_submessage truncated_info_dst : Error
  truncated_info_src truncated_acknack invalid_bitmap invalid_requested truncated_data : Error
  invalid_inline_offset truncated_inline truncated_parameter invalid_sequence : Error
  invalid_dimensions outside_sample truncated_fragment : Error
  truncated_sedp invalid_topic_name invalid_utf8 truncated_reliability unterminated_sedp : Error
  missing_payload inconsistent_dimensions multicast_delivery missing_part : Error

pub data Result {ℓ} (A : Type ℓ) : Type ℓ where
  err : Error → Result A
  ok : A → Result A

infixl 10 ◌>>=◌
abbrev pub ◌>>=◌ {ℓ κ} : {A : Type ℓ} {B : Type κ} → Result A → (A → Result B) → Result B
err raised >>= next = err raised
ok value >>= next = next value

infixl 10 ◌>>◌
abbrev pub ◌>>◌ {ℓ} : {B : Type ℓ} → Result (Unit {0}) → Result B → Result B
guarded >> later = guarded >>= λ _. later

abbrev pub raise_if : Bool → Error → Result (Unit {0})
raise_if true e = err e
raise_if false e = ok tt

-- `data[a:b]`
unfoldable pub slice : Bytes → ℕ → ℕ → Bytes
slice l a b = take (b - a) (drop a l)

pub length-slice : (l : Bytes) (a b : ℕ) → length (slice l a b) ≡ min (b - a) (length l - a)
unfolding slice
length-slice l a b =
    length-take (b - a) (drop a l) ∙ ap (λ (n : ℕ). min (b - a) n) (length-drop a l)

-- One byte of a `struct` read.
unfoldable pub read_byte : Bytes → ℕ → Result ℕ
read_byte l i = elim (get_elem? l i) [ none ↦ err struct_error | some b ↦ ok b ]

-- `struct.unpack_from("<H", l, i)` if the flag is set, else `">H"`
unfoldable pub read_u16 : Bool → Bytes → ℕ → Result ℕ
read_u16 little l i = do
  a ← read_byte l i
  b ← read_byte l (i + 1)
  ok (if little then a + 256 * b else 256 * a + b)

-- `struct.unpack_from("<I", l, i)` if the flag is set, else `">I"`
unfoldable pub read_u32 : Bool → Bytes → ℕ → Result ℕ
read_u32 little l i = do
  a ← read_byte l i
  b ← read_byte l (i + 1)
  c ← read_byte l (i + 2)
  d ← read_byte l (i + 3)
  ok (if little then a + 256 * (b + 256 * (c + 256 * d)) else d + 256 * (c + 256 * (b + 256 * a)))

-- `value & (1 << k)` as a test
unfoldable pub bit_set : ℕ → ℕ → Bool
bit_set value k = (value / 2 ^ k) % 2 == 1

abbrev pub is_ok {ℓ} : {A : Type ℓ} → Result A → Bool
is_ok (ok a) = true
is_ok (err e) = false

-- A read whose bytes are all there succeeds.
pub read_byte-is_ok : (l : Bytes) (i : ℕ) → i + 1 ≤ length l → is_ok (read_byte l i) ≡ true
unfolding read_byte
read_byte-is_ok [] i h = absurd (omega arith)
read_byte-is_ok (x ∷ l) zero h = refl
read_byte-is_ok (x ∷ l) (suc i) h = read_byte-is_ok l i (omega arith)

pub read_u16-is_ok :
    (little : Bool) (l : Bytes) (i : ℕ) → i + 2 ≤ length l → is_ok (read_u16 little l i) ≡ true
unfolding read_u16
read_u16-is_ok little l i h = ground (arith, read_byte-is_ok l i, read_byte-is_ok l (i + 1))

pub read_u32-is_ok :
    (little : Bool) (l : Bytes) (i : ℕ) → i + 4 ≤ length l → is_ok (read_u32 little l i) ≡ true
unfolding read_u32
read_u32-is_ok little l i h = ground (
  arith,
  read_byte-is_ok l i,
  read_byte-is_ok l (i + 1),
  read_byte-is_ok l (i + 2),
  read_byte-is_ok l (i + 3),
)

-- The last byte, the entity kind of a GUID.
abbrev pub last_byte : Bytes → ℕ
last_byte [] = 0
last_byte (b ∷ []) = b
last_byte (b ∷ c ∷ l) = last_byte (c ∷ l)
