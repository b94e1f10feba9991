-- ===== src/Traffic/Classify.antt =====
-- The classes of a frame: `is_discovery_entity`, `classify_packet` and the roles of `_tx_class` of
-- debug/scripts/traffic_accounting.py. The texts of a row are taken as the numbers that they spell.
use act_sim_scope_infra.Common.{
  ℕ, ◌%◌, List, [], ◌∷◌, Bool, true, false, ◌&&◌, ◌||◌, if◌then◌else◌, any, member,
}
use act_sim_scope_infra.Traffic.Counters.{FrameClass, TxClass, tx_class_eq}

abbrev pub discovery_kinds : List ℕ
discovery_kinds = 0xc2 ∷ 0xc3 ∷ 0xc4 ∷ 0xc7 ∷ []

abbrev pub spdp2_discovery_writers : List ℕ
spdp2_discovery_writers = 0x00010082 ∷ 0x00010182 ∷ 0xff010182 ∷ []

abbrev pub writer_kinds : List ℕ
writer_kinds = 0x02 ∷ 0x03 ∷ []

abbrev pub data_submessages : List ℕ
data_submessages = 0x02 ∷ 0x03 ∷ 0x10 ∷ 0x11 ∷ 0x14 ∷ 0x15 ∷ 0x16 ∷ 0x18 ∷ 0x81 ∷ []

abbrev pub control_submessages : List ℕ
control_submessages =
    0x06 ∷ 0x07 ∷ 0x08 ∷ 0x12 ∷ 0x13 ∷ 0x17 ∷ 0x19 ∷ 0x1a ∷ 0x1b ∷ 0x1c ∷ 0x1d ∷ 0x1e ∷ []

unfoldable pub is_discovery_entity : ℕ → Bool
is_discovery_entity entity =
    member (entity % 256) discovery_kinds || member entity spdp2_discovery_writers

-- `entity & 0xff in WRITER_KINDS`
unfoldable pub is_writer : ℕ → Bool
is_writer entity = member (entity % 256) writer_kinds

-- `submessages & DATA_SUBMESSAGES`, and with `CONTROL_SUBMESSAGES`, as tests
unfoldable pub carries_data : List ℕ → Bool
carries_data = any (λ s. member s data_submessages)

unfoldable pub carries_control : List ℕ → Bool
carries_control = any (λ s. member s control_submessages)

-- `"mixed"` for two classes or more, the one class, or `"unknown"`; the arguments say which of
-- "discovery", "data" and "reliability" the set holds.
abbrev pub class_of : Bool → Bool → Bool → FrameClass
class_of true true reliability = FrameClass.mixed
class_of true false true = FrameClass.mixed
class_of false true true = FrameClass.mixed
class_of true false false = FrameClass.discovery
class_of false true false = FrameClass.user_data
class_of false false true = FrameClass.reliability
class_of false false false = FrameClass.unknown

unfoldable pub classify_packet : List ℕ → List ℕ → FrameClass
classify_packet entities submessages =
    class_of (carries_data submessages && any is_discovery_entity entities)
      (carries_data submessages && any is_writer entities) (carries_control submessages)

-- `roles.add(role)`
abbrev pub add_role : TxClass → List TxClass → List TxClass
add_role r [] = r ∷ []
add_role r (q ∷ qs) = if tx_class_eq q r then q ∷ qs else q ∷ add_role r qs

-- `next(iter(roles), "unknown") if len(roles) <= 1 else "mixed"`
abbrev pub tx_class_of : List TxClass → TxClass
tx_class_of [] = TxClass.unknown
tx_class_of (r ∷ []) = r
tx_class_of (r ∷ q ∷ qs) = TxClass.mixed
