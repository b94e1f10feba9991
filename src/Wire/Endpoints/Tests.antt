-- ===== src/Wire/Endpoints/Tests.antt =====
-- `endpoint_metadata` on a small announcement.
use act_sim_scope_infra.Common.{◌≡◌, refl, [], ◌∷◌, ◌++◌, some}
use act_sim_scope_infra.Wire.Bytes.{
  Bytes, ok, err, unterminated_sedp, read_byte, read_u16, read_u32, slice,
}
use act_sim_scope_infra.Wire.Submessages.Outcome.{Holds}
use act_sim_scope_infra.Wire.Endpoints.{Reliability, endpoint_metadata}
use act_sim_scope_infra.Wire.Endpoints.Sound.{OfSome, IsWriter, endpoint_metadata-IsSound}

abbrev guid : Bytes
guid = 1 ∷ 1 ∷ 0 ∷ 0 ∷ 0 ∷ 0 ∷ 0 ∷ 0 ∷ 0 ∷ 0 ∷ 0 ∷ 7 ∷ 0 ∷ 0 ∷ 0x80 ∷ 2 ∷ []

-- The GUID, and the topic "T" of a writer that names no reliability.
abbrev announcement : Bytes
announcement =
    0
    ∷ 3
    ∷ 0
    ∷ 0
    ∷ 0x5a
    ∷ 0
    ∷ 16
    ∷ 0
    ∷ (guid ++ 5 ∷ 0 ∷ 8 ∷ 0 ∷ 2 ∷ 0 ∷ 0 ∷ 0 ∷ 84 ∷ 0 ∷ 0 ∷ 0 ∷ [])

announcement_read :
    endpoint_metadata (announcement ++ 1 ∷ 0 ∷ 0 ∷ 0 ∷ [])
    ≡ ok (some (record { writer_guid = guid; topic = 84 ∷ []; reliability = Reliability.reliable }))
unfolding endpoint_metadata read_byte read_u16 read_u32 slice
announcement_read = refl

announcement_unterminated : endpoint_metadata announcement ≡ err unterminated_sedp
unfolding endpoint_metadata read_byte read_u16 read_u32 slice
announcement_unterminated = refl

endpoint_metadata-IsSound_example :
    Holds (OfSome IsWriter) (endpoint_metadata (announcement ++ 1 ∷ 0 ∷ 0 ∷ 0 ∷ []))
endpoint_metadata-IsSound_example = endpoint_metadata-IsSound (announcement ++ 1 ∷ 0 ∷ 0 ∷ 0 ∷ [])
