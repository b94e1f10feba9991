-- ===== src/Harness/Reporting/Tests.antt =====
-- `MissionReporting` on a short mission.
use act_sim_scope_infra.Common.{◌+◌, ◌≡◌, false, refl, ltb, if◌then◌else◌}
use act_sim_scope_infra.Harness.Reporting.{
  Reporting, observed, requested, request, mode, report, status_init, status_mission,
  final_status_ms, observe-window,
}

abbrev transit : Reporting
transit = record { phase = "TRANSIT"; debug = false; final_status_until = 0; mission_id = "m" }

mode_debug : mode 1 (report (requested 2) transit) ≡ 2
unfolding report request mode
mode_debug = refl

observe-window_example :
    mode 4499 (report (observed "COMPLETE" 1500 "m") transit)
    ≡ (if ltb 4499 (1500 + final_status_ms) then status_mission else status_init)
observe-window_example = observe-window "COMPLETE" 1500 4499 "m" transit refl refl refl refl
