-- ===== src/Dashboard/Metrics.antt =====
-- `coherent_samples` of gui/mesh_dashboard/server/traffic_metrics.py. Times are whole milliseconds. Only
-- samples of the schema 3 on reach a history, and carry the time of their report; the counters C are not
-- read. `none` is a KeyError.
pub mod Aligned
pub mod Tests
use act_sim_scope_infra.Common.{
  ℕ, ◌+◌, ◌*◌, String, Bool, true, false, not, ◌&&◌, ◌||◌, Option, none, some, List, [], ◌∷◌, map,
  any, all, keep, max, ltb, leb, if◌then◌else◌, str_eq, Dict, contains, lookup, insert, get_default,
  string_key, nat_key,
}
use act_sim_scope_infra.Dashboard.Json.{◌>>=◌}

pub record Sample (C : Type 0) : Type 0 where
  pub schema_version : ℕ
  pub capture_timestamp : ℕ
  pub reported_at_ms : ℕ
  pub interval_ms : ℕ
  pub counters : C

-- `set(names)`, as its members
abbrev pub distinct : List String → List String
distinct [] = []
distinct (name ∷ names) =
    let rest = distinct names in if any (str_eq name) names then rest else name ∷ rest

-- `max(...)` of a set that is not empty
abbrev pub max_of : ℕ → List ℕ → ℕ
max_of n [] = n
max_of n (m ∷ ms) = max n (max_of m ms)

abbrev pub Windows : Type 0 → Type 0
Windows C = Dict String (Dict ℕ (Sample C))

module _ {C : Type 0} where
  -- `-1000 <= now_ms - s["reported_at_ms"] <= max(5000, s["interval_ms"] * 3)`
  abbrev pub is_current : ℕ → Sample C → Bool
  is_current now s =
      leb s.reported_at_ms (now + 1000) && leb now (s.reported_at_ms + max 5000 (s.interval_ms * 3))

  -- The samples of one history by their time; the last one of a time is kept.
  abbrev pub window_of : ℕ → List (Sample C) → Dict ℕ (Sample C) → Dict ℕ (Sample C)
  window_of now [] window = window
  window_of now (s ∷ history) window =
      window_of now history
        (if is_current now s then insert s.capture_timestamp s window else window)

  abbrev pub windows_of : ℕ → Dict String (List (Sample C)) → List String → Windows C
  windows_of now history = map (λ name. (name, window_of now (get_default name [] history) []))

  -- `set.intersection(*(set(rows) for rows in windows.values())) if windows else set()`
  abbrev pub common_of : Windows C → List ℕ
  common_of [] = []
  common_of ((name, rows) ∷ windows) =
      keep (λ t. all (λ w. contains t w.1) windows) (map (λ r. r.0) rows)

  abbrev pub rows_at : ℕ → Windows C → Option (Dict String (Sample C))
  rows_at newest [] = some []
  rows_at newest ((name, rows) ∷ windows) = do
    sample ← lookup newest rows
    rest ← rows_at newest windows
    some ((name, sample) ∷ rest)

  -- `set(expected or samples)`
  abbrev pub names_of : List String → Dict String (Sample C) → List String
  names_of [] samples = map (λ s. s.0) samples
  names_of (name ∷ names) samples = distinct (name ∷ names)

  abbrev pub is_coherent : List String → Dict String (Sample C) → Bool
  is_coherent names samples =
      all (λ name. contains name samples) names && not (any (λ s. ltb s.1.schema_version 3) samples)

  abbrev pub choose : Dict String (Sample C) → Windows C → List ℕ → Option (Dict String (Sample C))
  choose samples windows [] = some samples
  choose samples windows (t ∷ ts) = rows_at (max_of t ts) windows

  unfoldable pub coherent_samples :
      Dict String (Sample C)
      → List String
      → Dict String (List (Sample C))
      → ℕ
      → Option (Dict String (Sample C))
  coherent_samples samples expected history now =
      let names = names_of expected samples in
      if is_coherent names samples
      then choose samples (windows_of now history names) (common_of (windows_of now history names))
      else some samples
