-- ===== src/Dashboard/Bridge/Missions/Tests.antt =====
-- Two commands: one times out while it is written and is acknowledged late, the write of one fails.
use act_sim_scope_infra.Common.{
  ℕ, ◌≡◌, refl, String, List, [], ◌∷◌, true, false, Option, none, some, lookup, string_key, All,
}
use act_sim_scope_infra.Dashboard.Bridge.Missions.{
  Command, CommandState, timed_out, accepted, failed, Missions, Planned, AckSample, Op, expired,
  acked, requested, published, written, refused, run_ops, run_op, no_missions,
  expire_mission_commands, expire_all, expire_command, record_mission_ack, take_ack, acknowledged,
  update_command, new_command, store, end_write, publish_step, begin_publish, bound_history,
}
use act_sim_scope_infra.Dashboard.Bridge.Missions.History.{IsHistory, run_ops-IsHistory}
use act_sim_scope_infra.Dashboard.Bridge.Missions.Settled.{After, run_op-After}
use act_sim_scope_infra.Dashboard.Bridge.Missions.Dated.{IsDated, run_ops-IsDated}

abbrev planned : String → String → ℕ → Planned
planned id target now = record {
  command_id = id;
  target = target;
  target_id = none;
  now = now;
  time_ns = 0;
  later = now;
  outcome = written;
}

abbrev ack_sample : AckSample
ack_sample = record { source = "Platform_30"; command_id = "m-1"; run_id = "r1"; accepted = true }

abbrev two_requests : Op
two_requests = requested "route" "r1" (
    planned "m-1" "Platform_30" 1000
    ∷ record (planned "m-2" "Platform_31" 1001) { outcome = refused "no writer" }
    ∷ [])

abbrev writing_ops : List Op
writing_ops = two_requests ∷ published ∷ expired 16000 ∷ []

abbrev mission_ops : List Op
mission_ops =
    two_requests
    ∷ published
    ∷ expired 16000
    ∷ published
    ∷ acked 17001 ack_sample
    ∷ published
    ∷ expired 16001
    ∷ published
    ∷ published
    ∷ []

abbrev state_at : String → Missions → Option (CommandState × ℕ)
state_at id m = elim (lookup id m.commands) [
  | none ↦ none
  | some c ↦ some (c.state, c.audit_sequence)
]

abbrev two_states : Missions → Option (CommandState × ℕ) × Option (CommandState × ℕ)
two_states m = (state_at "m-1" m, state_at "m-2" m)

states_once : two_states (run_ops mission_ops no_missions) ≡ (some (accepted, 1), some (failed, 2))
unfolding run_ops run_op no_missions expire_mission_commands expire_all expire_command
    record_mission_ack take_ack acknowledged update_command begin_publish publish_step store
    end_write new_command bound_history
states_once = refl

timed_out_once : two_states (run_ops writing_ops no_missions) ≡ (some (timed_out, 1), none)
unfolding run_ops run_op no_missions expire_mission_commands expire_all expire_command begin_publish
    publish_step store new_command bound_history
timed_out_once = refl

run_ops-IsHistory_example : IsHistory (run_ops mission_ops no_missions)
run_ops-IsHistory_example =
    run_ops-IsHistory mission_ops
      ((refl, (refl, tt)), (tt, (tt, (tt, (tt, (tt, (tt, (tt, (tt, tt)))))))))

-- The command whose write is going on has timed out, and is then published.
abbrev late_command : Command
unfolding new_command
late_command = record (new_command "route" "r1" 1 (planned "m-1" "Platform_30" 1000)) {
  state = timed_out;
  updated_at = 16000;
  timed_out_at = some 16000;
}

run_op-After_example :
    After
      (timed_out, false)
      (lookup "m-1" (run_op published (run_ops writing_ops no_missions)).commands)
unfolding run_ops run_op no_missions expire_mission_commands expire_all expire_command begin_publish
    publish_step store new_command bound_history
run_op-After_example =
    run_op-After writing_ops published "m-1" late_command ((refl, (refl, tt)), (tt, (tt, tt))) refl

run_ops-IsDated_example : All IsDated (run_ops mission_ops no_missions).commands
run_ops-IsDated_example =
    run_ops-IsDated mission_ops
      ((refl, (refl, tt)), (tt, (tt, (tt, (tt, (tt, (tt, (tt, (tt, tt)))))))))
