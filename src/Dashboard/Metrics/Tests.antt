-- ===== src/Dashboard/Metrics/Tests.antt =====
-- `coherent_samples` of traffic_metrics.py on two observers, of which one is a window ahead.
use act_sim_scope_infra.Common.{ℕ, ◌+◌, ◌≡◌, ◌≤◌, refl, String, some, List, [], ◌∷◌, Dict, arith}
use act_sim_scope_infra.Dashboard.Metrics.{Sample, names_of, coherent_samples}
use act_sim_scope_infra.Dashboard.Metrics.Aligned.{IsAligned, Shared, coherent_samples-IsAligned}

abbrev sampled : ℕ → ℕ → Sample ℕ
sampled time packets = record {
  schema_version = 3;
  capture_timestamp = time;
  reported_at_ms = time + 100;
  interval_ms = 1000;
  counters = packets;
}

abbrev two_samples : Dict String (Sample ℕ)
two_samples = ("control_20", sampled 10000 7) ∷ ("platform_30", sampled 11000 5) ∷ []

abbrev past : Dict String (List (Sample ℕ))
past =
    ("control_20", sampled 9000 6 ∷ sampled 10000 7 ∷ [])
    ∷ ("platform_30", sampled 9000 3 ∷ sampled 10000 4 ∷ sampled 11000 5 ∷ [])
    ∷ []

aligned :
    coherent_samples two_samples [] past 11200
    ≡ some (("control_20", sampled 10000 7) ∷ ("platform_30", sampled 10000 4) ∷ [])
unfolding coherent_samples
aligned = refl

-- No history: the samples stay as they are.
apart : coherent_samples two_samples [] [] 11200 ≡ some two_samples
unfolding coherent_samples
apart = refl

coherent_samples-IsAligned_example :
    (newest : ℕ) × (rows : Dict String (Sample ℕ)) × (coherent_samples two_samples [] past 11200
      ≡ some rows)
    × IsAligned 11200 past newest (names_of [] two_samples) rows
    × ((u : ℕ) → Shared 11200 past u (names_of [] two_samples) → u ≤ newest)
coherent_samples-IsAligned_example =
    coherent_samples-IsAligned two_samples [] past 11200 9000 (λ e. ground (arith, e)) refl
      (refl, (refl, tt))
