-- ===== src/Wire/Submessages/Tests.antt =====
-- `submessages` on small payloads.
use act_sim_scope_infra.Common.{◌≡◌, refl, [], ◌∷◌, ◌++◌, none}
use act_sim_scope_infra.Wire.Bytes.{
  Bytes, read_byte, read_u16, read_u32, slice, bit_set, truncated_submessage,
}
use act_sim_scope_infra.Wire.Submessages.{done, raised, submessages}
use act_sim_scope_infra.Wire.Submessages.WellFormed.{IsSound, submessages-IsSound}
use act_sim_scope_infra.Wire.Submessages.Kinds.{sample_items, sample}

-- "RTPS", the version and vendor, and the prefix 1 ... 12
abbrev rtps_header : Bytes
rtps_header =
    b'R' ∷ b'T' ∷ b'P' ∷ b'S' ∷ 2 ∷ 5 ∷ 1 ∷ 1 ∷ 1 ∷ 2 ∷ 3 ∷ 4 ∷ 5 ∷ 6 ∷ 7 ∷ 8 ∷ 9 ∷ 10 ∷ 11 ∷ 12
    ∷ []

-- A DATA submessage, little endian, with one byte of payload.
abbrev data_submessage : Bytes
data_submessage =
    0x15 ∷ 5 ∷ 21 ∷ 0 ∷ 0 ∷ 0 ∷ 16 ∷ 0 ∷ 0 ∷ 0 ∷ 0 ∷ 0 ∷ 0 ∷ 0 ∷ 1 ∷ 2 ∷ 0 ∷ 0 ∷ 0 ∷ 0 ∷ 7 ∷ 0 ∷ 0
    ∷ 0 ∷ 99 ∷ []

data_parsed : submessages (rtps_header ++ data_submessage) ≡ record {
  items =
      sample (record {
        writer_guid = 1 ∷ 2 ∷ 3 ∷ 4 ∷ 5 ∷ 6 ∷ 7 ∷ 8 ∷ 9 ∷ 10 ∷ 11 ∷ 12 ∷ 0 ∷ 0 ∷ 1 ∷ 2 ∷ [];
        sequence = 7;
        destination_prefix = none;
        reader_id = 0 ∷ 0 ∷ 0 ∷ 0 ∷ [];
        payload = 99 ∷ [];
        fragment = none;
      })
      ∷ [];
  end = done;
}
unfolding submessages sample_items read_byte read_u16 read_u32 slice bit_set
data_parsed = refl

-- The first item is yielded before the truncated submessage behind it raises.
truncated_end :
    (submessages (rtps_header ++ data_submessage ++ (0x15 ∷ 1 ∷ 200 ∷ 0 ∷ []))).end
    ≡ raised truncated_submessage
unfolding submessages sample_items read_byte read_u16 read_u32 slice bit_set
truncated_end = refl

submessages-IsSound_example : IsSound (submessages (rtps_header ++ data_submessage))
submessages-IsSound_example = submessages-IsSound (rtps_header ++ data_submessage)
