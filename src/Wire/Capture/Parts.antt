-- ===== src/Wire/Capture/Parts.antt =====
-- `WireCapture` of debug/scripts/rtps_delivery.py: samples that arrive in DATA_FRAG fragments.
pub mod Whole
use act_sim_scope_infra.Common.{
  ℕ, zero, suc, ◌+◌, ◌-◌, ◌*◌, ◌/◌, [], ◌++◌, Bool, false, not, ◌&&◌, ◌||◌, Option, none, some,
  ◌==◌, if◌then◌else◌, length, take, Dict, lookup, contains, insert, nat_key,
}
use act_sim_scope_infra.Wire.Bytes.{
  Bytes, Error, Result, ok, err, ◌>>=◌, slice, inconsistent_dimensions, missing_part,
}
use act_sim_scope_infra.Wire.Submessages.Kinds.{Fragment}

pub record Group : Type 0 where
  pub at : ℕ
  pub parts : Dict ℕ Bytes
  pub size : ℕ
  pub fragment_size : ℕ

-- `any(number in group["parts"] for number in range(first, first + count))`
unfoldable pub any_part : ℕ → ℕ → Dict ℕ Bytes → Bool
any_part number zero parts = false
any_part number (suc count) parts = contains number parts || any_part (number + 1) count parts

-- `for index in range(count)`, from `index` on, with `remaining` to go
pub put_parts : ℕ → ℕ → Fragment → Bytes → Dict ℕ Bytes → Dict ℕ Bytes
put_parts zero index f payload parts = parts
put_parts (suc remaining) index f payload parts =
    let start = index * f.fragment_size in
    put_parts remaining (index + 1) f payload
      (insert (f.first + index) (slice payload start (start + f.fragment_size)) parts)

-- `b"".join(group["parts"][number] for number in range(number, number + count))`
pub join_parts : ℕ → ℕ → Dict ℕ Bytes → Result Bytes
join_parts number zero parts = ok []
join_parts number (suc count) parts = elim (lookup number parts) [
  | none ↦ err missing_part
  | some part ↦ join_parts (number + 1) count parts >>= λ rest. ok (part ++ rest)
]

abbrev pub part_count : ℕ → ℕ → ℕ
part_count size fragment_size = (size + fragment_size - 1) / fragment_size

-- What a fragment leads to: parts are missing, an error, or the sample, with the time of its first
-- fragment.
pub data Assembly : Type 0 where
  waiting : Group → Assembly
  failed : Error → Group → Assembly
  complete : Bytes → ℕ → Assembly

pub finish_parts : Group → Result Bytes → Assembly
finish_parts g (err e) = failed e g
finish_parts g (ok whole) = complete (take g.size whole) g.at

abbrev pub group_of : ℕ → Fragment → Option Group → Group
group_of t f none = record {
  at = t;
  parts = [];
  size = f.sample_size;
  fragment_size = f.fragment_size;
}
group_of t f (some g) = g

unfoldable pub assemble : ℕ → Fragment → Bytes → Option Group → Assembly
unfolding put_parts join_parts finish_parts
assemble t f payload o =
    let old = group_of t f o in
    let total = part_count old.size old.fragment_size in
    let parts = put_parts f.count 0 f payload old.parts in
    let g : Group = record old { parts = parts } in
    if not (old.size == f.sample_size && old.fragment_size == f.fragment_size)
    then failed inconsistent_dimensions old
    else if not (length parts == total)
    then waiting g
    else finish_parts g (join_parts 1 total parts)
