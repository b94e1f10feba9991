-- ===== src/Harness/MeshControl/Tests.antt =====
-- The loop of platform_mesh_control.py on a short run: a team joined and changed, a mission, a debug
-- request, and samples that are not for this platform.
use act_sim_scope_infra.Common.{
  ℕ, ◌≡◌, refl, List, [], ◌∷◌, String, true, not, ◌&&◌, str_eq, arith, map,
}
use act_sim_scope_infra.Harness.Reporting.{
  status_init, mode, note_phase, until_after, observe, request, fresh,
}
use act_sim_scope_infra.Harness.MeshControl.{
  Command, Kind, Control, TeamSample, MissionSample, ModeSample, Wakeup, label, below_zero, start,
  wake, run, take_teams, take_team, take_missions, take_mission, take_modes, take_mode,
  report_samples, change_team, leave_team, make_cmd, make_route_cmd, set_routes, apply_mode,
  follow_mode, parse_mode, request_parsed, disable_route, enable_route, add_participant_partition,
  remove_participant_partition,
}
use act_sim_scope_infra.Harness.MeshControl.Teams.{added, told_all, run-added}
use act_sim_scope_infra.Harness.MeshControl.Routes.{
  Follow, numbers, countdown, run-Follow, run-numbers,
}
use act_sim_scope_infra.Harness.MeshControl.Ignored.{usable, wake-usable}
use act_sim_scope_infra.Harness.MeshControl.Settles.{run-settles}

abbrev team : String → String → TeamSample
team node name = record { valid = true; platform_node = node; team_name = name }

abbrev phase : String → ℕ → MissionSample
phase p t = record {
  valid = true;
  source = "Platform_30";
  mission_phase = p;
  mission_id = "m1";
  now = t;
}

abbrev asked : ModeSample
asked = record { valid = true; platform_node = "Platform_30"; resolution_mode = label "DEBUG" }

abbrev refused : ModeSample
refused = record { valid = true; platform_node = "Platform_30"; resolution_mode = below_zero }

abbrev joined : Wakeup
joined = record {
  teams = team "Platform_30" "red" ∷ team "Platform_31" "green" ∷ team "Platform_30" "blue" ∷ [];
  missions = phase "TRANSIT" 1000 ∷ phase "LOST" 1001 ∷ [];
  modes = refused ∷ [];
  now = 1010;
}

abbrev ended : Wakeup
ended = record { teams = []; missions = phase "COMPLETE" 2000 ∷ []; modes = []; now = 2010 }

abbrev quiet : Wakeup
quiet = record { teams = []; missions = []; modes = []; now = 5000 }

abbrev loop : List Wakeup → Control
loop ws = run "Platform_30" "router" ws start

abbrev shown : Command → Kind × String × String
shown c = (c.kind, c.partition_name, c.route_name)

commands_once :
    map shown (loop (joined ∷ [])).written
    ≡ (disable_route, "", "platform_debug_status")
      ∷ (enable_route, "", "platform_detail_status")
      ∷ (enable_route, "", "platform_init_status")
      ∷ (add_participant_partition, "blue", "")
      ∷ (remove_participant_partition, "red", "")
      ∷ (add_participant_partition, "red", "")
      ∷ []
unfolding run wake take_teams take_team take_missions take_mission take_modes take_mode
    report_samples change_team leave_team make_cmd make_route_cmd set_routes apply_mode follow_mode
    parse_mode request_parsed start mode note_phase until_after observe request fresh
commands_once = refl

run-added_example :
    added "blue" (loop (joined ∷ ended ∷ [])).written
    ≡ (not (str_eq "blue" "") && str_eq "blue" (told_all "Platform_30" (joined ∷ ended ∷ []) ""))
run-added_example = run-added "Platform_30" "router" "blue" (joined ∷ ended ∷ [])

run-Follow_example :
    Follow (loop (joined ∷ ended ∷ [])).tracked_mode (loop (joined ∷ ended ∷ [])).written
run-Follow_example = run-Follow "Platform_30" "router" (joined ∷ ended ∷ [])

run-numbers_example :
    numbers (loop (joined ∷ ended ∷ [])).written ≡ countdown (loop (joined ∷ ended ∷ [])).cmd_seq
run-numbers_example = run-numbers "Platform_30" "router" (joined ∷ ended ∷ [])

wake-usable_example :
    wake "Platform_30" "router" joined start
    ≡ wake "Platform_30" "router" (usable "Platform_30" joined) start
wake-usable_example = wake-usable "Platform_30" "router" joined start

run-settles_example :
    (wake "Platform_30" "router" quiet (loop (joined ∷ ended ∷ []))).tracked_mode ≡ status_init
unfolding run wake take_teams take_team take_missions take_mission take_modes take_mode
    report_samples change_team leave_team make_cmd make_route_cmd set_routes apply_mode follow_mode
    parse_mode request_parsed start mode note_phase until_after observe request fresh
run-settles_example =
    run-settles "Platform_30" "router" 2000 (joined ∷ ended ∷ []) quiet
      ((omega arith, (omega arith, tt)), ((omega arith, tt), tt)) tt (omega arith) refl refl
