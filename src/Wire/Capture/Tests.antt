-- ===== src/Wire/Capture/Tests.antt =====
-- `WireCapture` on a small run, and the theorem at it.
use act_sim_scope_infra.Common.{
  arith, none, ℕ, ◌≤◌, ◌≡◌, refl, List, [], ◌∷◌, some, Dict, String, nat_key, list_key, pair_key,
}
use act_sim_scope_infra.Wire.Bytes.{Bytes, read_byte, read_u16, read_u32, slice, bit_set}
use act_sim_scope_infra.Wire.SequenceRanges.{add, contains}
use act_sim_scope_infra.Wire.Submessages.{submessages}
use act_sim_scope_infra.Wire.Submessages.Kinds.{sample_items}
use act_sim_scope_infra.Wire.Capture.State.{Row, SampleKey, sent, direction_key, init, fresh}
use act_sim_scope_infra.Wire.Capture.{process, run}
use act_sim_scope_infra.Wire.Capture.Repair.{Ip}
use act_sim_scope_infra.Wire.Submessages.Kinds.{Fragment}
use act_sim_scope_infra.Wire.Capture.Parts.{Group, assemble}
use act_sim_scope_infra.Wire.Capture.Parts.Whole.{
  parts_of, IsFragment, PartialIfAny, Rebuilds, assemble-Rebuilds,
}
use act_sim_scope_infra.Wire.Capture.Once.{times}
use act_sim_scope_infra.Wire.Capture.Delivered.{run_once}

abbrev here : Ip
here = 10 ∷ 0 ∷ 0 ∷ 1 ∷ []

abbrev there : Ip
there = 10 ∷ 0 ∷ 0 ∷ 2 ∷ []

abbrev nodes : Dict Ip String
nodes = (here, "alpha") ∷ (there, "bravo") ∷ []

-- A DATA submessage of the writer 0x00000102, number 7, with one byte of payload.
abbrev datagram : Bytes
datagram =
    b'R' ∷ b'T' ∷ b'P' ∷ b'S' ∷ 2 ∷ 5 ∷ 1 ∷ 1 ∷ 1 ∷ 2 ∷ 3 ∷ 4 ∷ 5 ∷ 6 ∷ 7 ∷ 8 ∷ 9 ∷ 10 ∷ 11 ∷ 12
    ∷ 0x15 ∷ 5 ∷ 21 ∷ 0 ∷ 0 ∷ 0 ∷ 16 ∷ 0 ∷ 0 ∷ 0 ∷ 0 ∷ 0 ∷ 0 ∷ 0 ∷ 1 ∷ 2 ∷ 0 ∷ 0 ∷ 0 ∷ 0 ∷ 7 ∷ 0 ∷ 0
    ∷ 0 ∷ 99 ∷ []

-- Sent twice.
abbrev frame_row : ℕ → Row
frame_row t = record {
  source = here;
  destination = there;
  time = t;
  payload = some datagram;
  port = some 57411;
}

abbrev rows : List (Row × ℕ)
rows = (frame_row 100, 200) ∷ (frame_row 300, 200) ∷ []

abbrev sample_key : SampleKey
sample_key = (
  (200, (1 ∷ 2 ∷ 3 ∷ 4 ∷ 5 ∷ 6 ∷ 7 ∷ 8 ∷ 9 ∷ 10 ∷ 11 ∷ 12 ∷ 0 ∷ 0 ∷ 1 ∷ 2 ∷ [], (there, sent))),
  7,
)

sent_once : times sample_key (run rows (fresh nodes (here ∷ []))).output ≡ 1
unfolding process submessages sample_items add contains read_byte read_u16 read_u32 slice bit_set
sent_once = refl

run_once_example : times sample_key (run rows (fresh nodes (here ∷ []))).output ≤ 1
unfolding init
run_once_example = run_once "alpha" "run-1" nodes (here ∷ []) rows sample_key refl

-- A sample of three bytes in fragments of two: the second fragment arrives before the first.
abbrev whole : Bytes
whole = 7 ∷ 8 ∷ 9 ∷ []

abbrev fragment_from : ℕ → Fragment
fragment_from first = record { first = first; count = 1; fragment_size = 2; sample_size = 3 }

second_IsFragment : IsFragment whole 2 1 (fragment_from 2) (9 ∷ [])
unfolding slice
second_IsFragment = record {
  first = refl;
  fits = omega arith;
  size = refl;
  fragment_size = refl;
  carries = refl;
}

first_IsFragment : IsFragment whole 2 0 (fragment_from 1) (7 ∷ 8 ∷ [])
unfolding slice
first_IsFragment = record {
  first = refl;
  fits = omega arith;
  size = refl;
  fragment_size = refl;
  carries = refl;
}

abbrev half : Group
half = record { at = 50; parts = (2, 9 ∷ []) ∷ []; size = 3; fragment_size = 2 }

half_IsPartial : PartialIfAny whole 2 (some half)
unfolding assemble slice
half_IsPartial =
    (assemble-Rebuilds whole 2 50 1 (fragment_from 2) (9 ∷ []) none (omega arith) second_IsFragment
      tt).0

assemble-Rebuilds_example :
    Rebuilds whole 2
      (parts_of (some half))
      0
      1
      (assemble 60 (fragment_from 1) (7 ∷ 8 ∷ []) (some half))
assemble-Rebuilds_example =
    assemble-Rebuilds whole 2 60 0 (fragment_from 1) (7 ∷ 8 ∷ []) (some half) (omega arith)
      first_IsFragment half_IsPartial
