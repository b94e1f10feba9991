-- ===== src/Dashboard/Bridge/Missions.antt =====
-- The mission commands of mesh_bridge.py: `_publish_mission_commands`, `record_mission_ack` and
-- `expire_mission_commands` on their history, as steps each of which is one hold of `cache_lock`. Routes and
-- payloads are not kept; how the write of a command ends is an argument. Times are in milliseconds.
pub mod Lookups
pub mod Ready
pub mod History
pub mod Settled
pub mod Dated
mod Tests
use act_sim_scope_infra.Common.{
  ℕ, ◌+◌, suc, String, List, [], ◌∷◌, Bool, true, false, not, ◌&&◌, ◌||◌, Option, none, some, ltb,
  leb, if◌then◌else◌, str_eq, any, length, max, is_some, Dict, lookup, contains, insert, string_key,
  pair_key,
}

pub data CommandState : Type 0 where
  pending accepted rejected timed_out failed : CommandState

pub record Ack : Type 0 where
  pub source : String
  pub command_id : String
  pub run_id : String
  pub accepted : Bool
  pub received_at : ℕ
  pub late_ack : Bool

pub record Command : Type 0 where
  pub command_id : String
  pub operation : String
  pub target : String
  pub state : CommandState
  pub run_id : String
  pub audit_sequence : ℕ
  pub created_at : ℕ
  pub updated_at : ℕ
  pub published : Bool
  pub target_id : Option String
  pub timed_out_at : Option ℕ
  pub ack : Option Ack
  pub late_ack : Bool
  pub error : Option String

abbrev pub Commands : Type 0
Commands = Dict String Command

-- How the `try` ends: `refused` before the write has succeeded, `unlogged` after it.
pub data Written : Type 0 where
  written : Written
  refused unlogged : String → Written

pub record Planned : Type 0 where
  pub command_id : String
  pub target : String
  pub target_id : Option String
  pub now : ℕ
  pub time_ns : ℕ
  pub later : ℕ
  pub outcome : Written

-- Where the thread that publishes stands: `mission_lock` lets in one at a time. Between two of its steps it
-- holds no `cache_lock`, and other threads may take theirs.
pub data Publisher : Type 0 where
  idle : Publisher
  ready : String → String → List Planned → Publisher
  writing : String → String → Planned → List Planned → Publisher
  logging : String → String → Planned → String → List Planned → Publisher

pub record Missions : Type 0 where
  pub commands : Commands
  pub acks : Dict (String × String) Ack
  pub dispatched : List String
  pub sequence : ℕ
  pub publisher : Publisher

abbrev pub history_limit : ℕ
history_limit = 200

abbrev pub ack_timeout_ms : ℕ
ack_timeout_ms = 15000

-- `while len(history) > limit: history.pop(next(iter(history)))`
unfoldable pub bound_history {ℓ} : {A : Type ℓ} → List A → List A
bound_history [] = []
bound_history (x ∷ xs) =
    let rest = bound_history xs in if ltb history_limit (suc (length xs)) then rest else x ∷ xs

abbrev pub is_pending : CommandState → Bool
is_pending pending = true
is_pending state = false

abbrev pub is_failed : CommandState → Bool
is_failed failed = true
is_failed state = false

unfoldable pub expire_command : ℕ → Command → Command
expire_command now c =
    if is_pending c.state && leb (c.created_at + ack_timeout_ms) now
    then record c { state = timed_out; updated_at = now; timed_out_at = some now }
    else c

unfoldable pub expire_all : ℕ → Commands → Commands
expire_all now [] = []
expire_all now ((id, c) ∷ d) = (id, expire_command now c) ∷ expire_all now d

unfoldable pub expire_mission_commands : ℕ → Missions → Missions
expire_mission_commands now m = record m { commands = expire_all now m.commands }

pub record AckSample : Type 0 where
  pub source : String
  pub command_id : String
  pub run_id : String
  pub accepted : Bool

abbrev pub is_ack_of : AckSample → Command → Bool
is_ack_of s c = str_eq s.source c.target && str_eq s.run_id c.run_id && not (is_failed c.state)

unfoldable pub ack_of : ℕ → AckSample → Command → Ack
ack_of now s c = record {
  source = s.source;
  command_id = s.command_id;
  run_id = s.run_id;
  accepted = s.accepted;
  received_at = now;
  late_ack = is_some c.timed_out_at;
}

unfoldable pub acknowledged : ℕ → AckSample → Command → Command
acknowledged now s c = record c {
  ack = some (ack_of now s c);
  state = if s.accepted then CommandState.accepted else rejected;
  late_ack = is_some c.timed_out_at;
  updated_at = now;
}

-- `self.scenario_dispatched_targets.add(...)`
abbrev pub dispatch : Bool → Option String → List String → List String
dispatch false target targets = targets
dispatch true none targets = targets
dispatch true (some target) targets =
    if str_eq target "" || any (str_eq target) targets then targets else target ∷ targets

-- A command is changed where the history holds it.
abbrev pub change : Option Command → String → (Command → Command) → Commands → Commands
change none id f d = d
change (some c) id f d = insert id (f c) d

unfoldable pub update_command : String → (Command → Command) → Commands → Commands
update_command id f d = change (lookup id d) id f d

unfoldable pub take_ack : ℕ → AckSample → Option Command → Missions → Bool × Missions
take_ack now s none m = (false, m)
take_ack now s (some c) m =
    if is_ack_of s c
    then (
      true,
      record m {
        commands = update_command s.command_id (acknowledged now s) m.commands;
        acks = bound_history (insert (s.source, s.command_id) (ack_of now s c) m.acks);
        dispatched = dispatch s.accepted c.target_id m.dispatched;
      },
    )
    else (false, m)

-- `record_mission_ack` behind its call of `expire_mission_commands`
unfoldable pub record_mission_ack : ℕ → AckSample → Missions → Bool × Missions
record_mission_ack now s m = take_ack now s (lookup s.command_id m.commands) m

unfoldable pub new_command : String → String → ℕ → Planned → Command
new_command operation run_id sequence p = record {
  command_id = p.command_id;
  operation = operation;
  target = p.target;
  state = pending;
  run_id = run_id;
  audit_sequence = sequence;
  created_at = p.now;
  updated_at = p.now;
  published = false;
  target_id = p.target_id;
  timed_out_at = none;
  ack = none;
  late_ack = false;
  error = none;
}

-- `with self.cache_lock: self.mission_commands[command_id] = command` and the bound
unfoldable pub store : String → String → Planned → List Planned → Missions → Missions
store operation run_id p ps m =
    let sequence = max (suc m.sequence) p.time_ns in
    record m {
      commands =
          bound_history (insert p.command_id (new_command operation run_id sequence p) m.commands);
      sequence = sequence;
      publisher = writing operation run_id p ps;
    }

abbrev pub mark_published : Command → Command
mark_published c = record c { published = true }

-- The `except` block
abbrev pub note_error : ℕ → String → Command → Command
note_error now message c = record c {
  state = if c.published then c.state else failed;
  error = some message;
  updated_at = now;
}

-- The end of the write; what goes wrong before it is noted in one step, and what goes wrong after it in
-- the next.
unfoldable pub end_write : Written → String → String → Planned → List Planned → Missions → Missions
end_write written operation run_id p ps m = record m {
  commands = update_command p.command_id mark_published m.commands;
  publisher = ready operation run_id ps;
}
end_write (refused message) operation run_id p ps m = record m {
  commands = update_command p.command_id (note_error p.later message) m.commands;
  publisher = ready operation run_id ps;
}
end_write (unlogged message) operation run_id p ps m = record m {
  commands = update_command p.command_id mark_published m.commands;
  publisher = logging operation run_id p message ps;
}

-- The publisher's next step under `cache_lock`
unfoldable pub publish_step : Publisher → Missions → Missions
publish_step idle m = m
publish_step (ready operation run_id []) m = record m { publisher = idle }
publish_step (ready operation run_id (p ∷ ps)) m = store operation run_id p ps m
publish_step (writing operation run_id p ps) m = end_write p.outcome operation run_id p ps m
publish_step (logging operation run_id p message ps) m = record m {
  commands = update_command p.command_id (note_error p.later message) m.commands;
  publisher = ready operation run_id ps;
}

-- The test of `_publish_mission_commands` for identifiers in use; with one it raises `MissionConflict`.
abbrev pub any_in_use : List Planned → Commands → Bool
any_in_use ps d = any (λ p. contains p.command_id d) ps

unfoldable pub begin_publish : Publisher → String → String → List Planned → Missions → Missions
begin_publish idle operation run_id ps m =
    if any_in_use ps m.commands then m else record m { publisher = ready operation run_id ps }
begin_publish publisher operation run_id ps m = m

-- `_mission_run_id` for a new run, under `mission_lock`
unfoldable pub change_run : Publisher → Missions → Missions
change_run idle m = record m { commands = []; acks = []; dispatched = [] }
change_run publisher m = m

-- What the threads of the server do with the commands, in the order in which they hold `cache_lock`.
pub data Op : Type 0 where
  expired : ℕ → Op
  acked : ℕ → AckSample → Op
  run_changed : Op
  requested : String → String → List Planned → Op
  published : Op

unfoldable pub run_op : Op → Missions → Missions
run_op (expired now) m = expire_mission_commands now m
run_op (acked now s) m = (record_mission_ack now s m).1
run_op run_changed m = change_run m.publisher m
run_op (requested operation run_id ps) m = begin_publish m.publisher operation run_id ps m
run_op published m = publish_step m.publisher m

unfoldable pub run_ops : List Op → Missions → Missions
run_ops [] m = m
run_ops (op ∷ ops) m = run_ops ops (run_op op m)

unfoldable pub no_missions : Missions
no_missions = record { commands = []; acks = []; dispatched = []; sequence = 0; publisher = idle }
