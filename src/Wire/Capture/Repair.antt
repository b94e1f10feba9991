-- ===== src/Wire/Capture/Repair.antt =====
-- `WireCapture` of debug/scripts/rtps_delivery.py: the repair requests of remote readers.
use act_sim_scope_infra.Common.{
  ℕ, ◌-◌, ◌*◌, [], ◌∷◌, Bool, true, false, ◌&&◌, ◌||◌, Option, none, some, ltb, leb, ◌==◌,
  if◌then◌else◌, take, drop, keep, Dict, insert, get_default, nat_key, pair_key, list_key,
}
use act_sim_scope_infra.Wire.Bytes.{Bytes}
use act_sim_scope_infra.Wire.Submessages.Kinds.{Sample}

-- An IPv4 address, as its octets.
abbrev pub Ip : Type 0
Ip = Bytes

abbrev pub second : ℕ
second = 1000 * 1000 * 1000

pub record Request : Type 0 where
  pub at : ℕ
  pub readers : Dict Bytes ℕ
  pub emitted : Bool

-- The domain, the writer, the sequence number, the node that sends the samples, and the one that asks.
abbrev pub RequestKey : Type 0
RequestKey = ℕ × (Bytes × (ℕ × (Ip × Ip)))

abbrev pub Requests : Type 0
Requests = Dict RequestKey Request

-- What `process` does with a "repair_request" at a time.
unfoldable pub note_request : ℕ → RequestKey → Bytes → Requests → Requests
note_request t key reader requests =
    let old = get_default key (record { at = t; readers = []; emitted = false }) requests in
    insert key (record { at = t; readers = insert reader t old.readers; emitted = old.emitted })
      requests

-- `now - request["at"] <= 120`
unfoldable pub recent_requests : ℕ → Requests → Requests
recent_requests now = keep (λ entry. leb (now - entry.1.at) (120 * second))

abbrev pub any_reader : Bytes
any_reader = 0 ∷ 0 ∷ 0 ∷ 0 ∷ []

abbrev pub same_bytes : Bytes → Bytes → Bool
same_bytes a b = list_key.same a b

-- `not prefix or reader[:24] == prefix`
abbrev pub has_prefix : Option Bytes → Bytes → Bool
has_prefix none reader = true
has_prefix (some prefix) reader = same_bytes (take 12 reader) prefix

-- Whether a sample is for a reader.
pub addressed : Sample → Bytes → Bool
addressed s reader =
    has_prefix s.destination_prefix reader
    && (same_bytes s.reader_id any_reader || same_bytes s.reader_id (drop 12 reader))

-- The order of the GUIDs' texts.
pub bytes_lt : Bytes → Bytes → Bool
bytes_lt [] [] = false
bytes_lt [] (b ∷ bs) = true
bytes_lt (a ∷ as1) [] = false
bytes_lt (a ∷ as1) (b ∷ bs) = ltb a b || (a == b && bytes_lt as1 bs)

-- The first of two readers.
abbrev earlier : Bytes × ℕ → Option (Bytes × ℕ) → Bytes × ℕ
earlier r none = r
earlier r (some q) = if bytes_lt q.0 r.0 then q else r

-- `sorted(...)[0]` of the readers that a sample is for, with the time of the request.
unfoldable pub first_reader : Sample → Dict Bytes ℕ → Option (Bytes × ℕ)
unfolding bytes_lt addressed
first_reader s [] = none
first_reader s ((reader, t) ∷ rest) =
    let later = first_reader s rest in
    if addressed s reader then some (earlier (reader, t) later) else later
