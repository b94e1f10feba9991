-- ===== src/Harness/Audit/Judged.antt =====
-- What decides the verdicts of `analyze` in delivery_audit_report.py.
use act_sim_scope_infra.Common.{ℕ, ◌-◌, ◌*◌, ◌≤◌, ◌≡◌, ◌⊎◌, refl, true, false, ltb, arith, inl, inr}
use native.Mathlib.Nat.{mul-le-mul_right}
use act_sim_scope_infra.Harness.Audit.{Requirement}
use act_sim_scope_infra.Harness.Audit.Verdicts.{topic_verdict}

-- With nothing missing the percentage is 100.
reached :
    (threshold expected : ℕ)
    → threshold ≤ 100
    → ltb (100 * (expected - 0)) (threshold * expected) ≡ false
reached threshold expected h = ground (arith, mul-le-mul_right expected h)

Nat-cases : (n : ℕ) → (n ≡ 0) ⊎ (ltb 0 n ≡ true)
Nat-cases n = ground arith

-- A threshold of at most 100 percent decides nothing: as the number of missing deliveries is that of
-- the topic's, a topic below its threshold has one missing, and fails for that.
pub topic_verdict-threshold :
    (requirement : Requirement) (threshold sent expected missing duplicates unexpected : ℕ)
    → requirement.completion_threshold_percent ≤ 100
    → threshold ≤ 100
    → topic_verdict false
        (record requirement { completion_threshold_percent = threshold })
        sent
        expected
        missing
        duplicates
        unexpected
      ≡ topic_verdict false requirement sent expected missing duplicates unexpected
unfolding topic_verdict
topic_verdict-threshold requirement threshold sent expected missing duplicates unexpected h l =
    elim (Nat-cases missing) [
      | inl z ↦
          rw
            (
              z,
              reached requirement.completion_threshold_percent expected h,
              reached threshold expected l,
            )
            refl
      | inr p ↦ rw p refl
    ]
