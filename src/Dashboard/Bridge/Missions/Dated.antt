-- ===== src/Dashboard/Bridge/Missions/Dated.antt =====
-- What a mission command of mesh_bridge.py records of its time-out, its acknowledgement and its error.
use act_sim_scope_infra.Common.{
  arith, ◌&&◌, ◌+◌, leb, ℕ, ◌+◌, ◌≡◌, refl, suc, String, List, [], ◌∷◌, true, false, Option, none,
  some, leb, ltb, length, max, str_eq, lookup, insert, string_key, All, inl, inr, Bool-cases,
  is_some, subst, some-injective, sym, ap, if◌then◌else◌,
}
use act_sim_scope_infra.Dashboard.Bridge.Missions.{
  Ack, Command, Commands, CommandState, pending, accepted, rejected, timed_out, failed, Missions,
  Publisher, idle, ready, writing, logging, Planned, AckSample, Written, written, refused, unlogged,
  Op, expired, acked, run_changed, requested, published, is_pending, is_failed, is_ack_of,
  ack_timeout_ms, history_limit, bound_history, expire_command, expire_all, expire_mission_commands,
  ack_of, acknowledged, update_command, take_ack, record_mission_ack, new_command, store,
  mark_published, note_error, end_write, publish_step, any_in_use, begin_publish, change_run,
  run_op, run_ops, no_missions,
}
use act_sim_scope_infra.Dashboard.Bridge.Missions.Lookups.{update_command-keeps}
use act_sim_scope_infra.Dashboard.Bridge.Missions.Ready.{
  Unwritten, CanPublish, IsReady, IsDistinct, run_ops-keeps, no_missions-IsReady,
}

-- The acknowledgement held is late exactly when the command had timed out before.
abbrev IsLate : Command → Option Ack → Type 0
IsLate c none = ⊥
IsLate c (some a) = (a.late_ack ≡ is_some c.timed_out_at) × (c.late_ack ≡ a.late_ack)

abbrev IsDatedAs : CommandState → Command → Type 0
IsDatedAs pending c = (is_some c.timed_out_at ≡ false) × (is_some c.ack ≡ false)
IsDatedAs timed_out c = (is_some c.timed_out_at ≡ true) × (is_some c.ack ≡ false)
IsDatedAs failed c = (is_some c.error ≡ true) × (c.published ≡ false)
IsDatedAs accepted c = IsLate c c.ack
IsDatedAs rejected c = IsLate c c.ack

abbrev pub IsDated : String × Command → Type 0
IsDated (id, c) = IsDatedAs c.state c

pending-ack :
    (s : CommandState) (c : Command) → is_pending s ≡ true → IsDatedAs s c → is_some c.ack ≡ false
pending-ack pending c e h = h.1
pending-ack accepted c e h = absurd (ground (arith, e))
pending-ack rejected c e h = absurd (ground (arith, e))
pending-ack timed_out c e h = absurd (ground (arith, e))
pending-ack failed c e h = absurd (ground (arith, e))

expired-IsDated :
    (now : ℕ) (c : Command)
    → IsDatedAs c.state c
    → IsDatedAs (expire_command now c).state (expire_command now c)
unfolding expire_command
expired-IsDated now c h =
    elim (Bool-cases (is_pending c.state && leb (c.created_at + ack_timeout_ms) now)) [
      | inl b ↦ rw b (refl, pending-ack c.state c (ground (arith, b)) h)
      | inr b ↦ rw b h
    ]

expire_all-IsDated : (now : ℕ) (d : Commands) → All IsDated d → All IsDated (expire_all now d)
unfolding expire_all
expire_all-IsDated now [] h = tt
expire_all-IsDated now ((id, c) ∷ d) (h, hs) =
    (expired-IsDated now c h, expire_all-IsDated now d hs)

insert-IsDated :
    (id : String) (c : Command) (d : Commands)
    → IsDated (id, c)
    → All IsDated d
    → All IsDated (insert id c d)
insert-IsDated id c [] h hs = (h, tt)
insert-IsDated id c ((j, w) ∷ d) h (l, hs) = elim (Bool-cases (str_eq j id)) [
  | inl b ↦ rw b (h, hs)
  | inr b ↦ rw b (l, insert-IsDated id c d h hs)
]

bound_history-IsDated : (d : Commands) → All IsDated d → All IsDated (bound_history d)
unfolding bound_history
bound_history-IsDated [] h = tt
bound_history-IsDated ((id, c) ∷ d) (h, hs) =
    elim (Bool-cases (ltb history_limit (suc (length d)))) [
      | inl b ↦ rw b (bound_history-IsDated d hs)
      | inr b ↦ rw b (h, hs)
    ]

acknowledged-IsDated :
    (now : ℕ) (s : AckSample) (c : Command) → IsDated (s.command_id, acknowledged now s c)
unfolding acknowledged ack_of
acknowledged-IsDated now s c = elim (Bool-cases s.accepted) [
  | inl b ↦ rw b (refl, refl)
  | inr b ↦ rw b (refl, refl)
]

-- What an update does to the command that it finds, which is dated, is all that matters.
lookup-IsDated :
    (id : String) (c : Command) (d : Commands)
    → lookup id d ≡ some c
    → All IsDated d
    → IsDated (id, c)
lookup-IsDated id c [] e h = absurd (cc e)
lookup-IsDated id c ((j, w) ∷ d) e (h, hs) = elim (Bool-cases (str_eq j id)) [
  | inl b ↦ subst (λ v. IsDatedAs v.state v) (some-injective w c (rw b at e)) h
  | inr b ↦ lookup-IsDated id c d (rw b at e) hs
]

update_command-IsDated :
    (id : String) (f : Command → Command) (d : Commands)
    → ((c : Command) → lookup id d ≡ some c → IsDated (id, c) → IsDated (id, f c))
    → All IsDated d
    → All IsDated (update_command id f d)
update_command-IsDated id f d h hs =
    update_command-keeps (All IsDated) id f d
      (λ c e. insert-IsDated id (f c) d (h c e (lookup-IsDated id c d e hs)) hs) hs

take_ack-IsDated :
    (now : ℕ) (s : AckSample) (o : Option Command) (m : Missions)
    → All IsDated m.commands
    → All IsDated (take_ack now s o m).1.commands
unfolding take_ack
take_ack-IsDated now s none m h = h
take_ack-IsDated now s (some c) m h = elim (Bool-cases (is_ack_of s c)) [
  | inr b ↦ rw b h
  | inl b ↦ rw b (
      update_command-IsDated s.command_id (acknowledged now s) m.commands
        (λ d e l. acknowledged-IsDated now s d) h)
]

-- A command that has not failed may be marked as published.
marked :
    (s : CommandState) (c : Command)
    → is_failed s ≡ false
    → IsDatedAs s c
    → IsDatedAs s (mark_published c)
marked pending c f h = h
marked accepted c f h = h
marked rejected c f h = h
marked timed_out c f h = h
marked failed c f h = absurd (ground (arith, f))

mark_published-IsDated :
    (id : String) (d : Commands)
    → Unwritten (lookup id d)
    → All IsDated d
    → All IsDated (update_command id mark_published d)
mark_published-IsDated id d w =
    update_command-IsDated id mark_published d (λ c e. marked c.state c (subst Unwritten e w).1)

-- An error is noted with the state as it is.
noted :
    (s : CommandState) (now : ℕ) (message : String) (c : Command)
    → IsDatedAs s c
    → IsDatedAs s (note_error now message c)
noted pending now message c h = h
noted accepted now message c h = go c.ack h
  where
    go : (o : Option Ack) → IsLate c o → IsLate (note_error now message c) o
    go none l = l
    go (some a) l = l
noted rejected now message c h = go c.ack h
  where
    go : (o : Option Ack) → IsLate c o → IsLate (note_error now message c) o
    go none l = l
    go (some a) l = l
noted timed_out now message c h = h
noted failed now message c h = (refl, h.1)

note_error-IsDated :
    (id : String) (now : ℕ) (message : String) (c : Command)
    → IsDated (id, c)
    → IsDated (id, note_error now message c)
note_error-IsDated id now message c h = elim (Bool-cases c.published) [
  | inl b ↦
      subst (λ s. IsDatedAs s (note_error now message c))
        (sym (ap (λ q. if q then c.state else failed) b)) (noted c.state now message c h)
  | inr b ↦
      subst (λ s. IsDatedAs s (note_error now message c))
        (sym (ap (λ q. if q then c.state else failed) b)) (refl, b)
]

update-error-IsDated :
    (id : String) (now : ℕ) (message : String) (d : Commands)
    → All IsDated d
    → All IsDated (update_command id (note_error now message) d)
update-error-IsDated id now message d =
    update_command-IsDated id (note_error now message) d
      (λ c e. note_error-IsDated id now message c)

end_write-IsDated :
    (w : Written) (operation run_id : String) (p : Planned) (ps : List Planned) (m : Missions)
    → Unwritten (lookup p.command_id m.commands)
    → All IsDated m.commands
    → All IsDated (end_write w operation run_id p ps m).commands
unfolding end_write
end_write-IsDated written operation run_id p ps m w h =
    mark_published-IsDated p.command_id m.commands w h
end_write-IsDated (refused message) operation run_id p ps m w h =
    update-error-IsDated p.command_id p.later message m.commands h
end_write-IsDated (unlogged message) operation run_id p ps m w h =
    mark_published-IsDated p.command_id m.commands w h

publish_step-IsDated :
    (p : Publisher) (m : Missions)
    → CanPublish p m.commands
    → All IsDated m.commands
    → All IsDated (publish_step p m).commands
unfolding publish_step store new_command
publish_step-IsDated idle m c h = h
publish_step-IsDated (ready operation run_id []) m c h = h
publish_step-IsDated (ready operation run_id (p ∷ ps)) m c h =
    bound_history-IsDated (insert p.command_id _ m.commands) (
      insert-IsDated p.command_id (new_command operation run_id (max (suc m.sequence) p.time_ns) p)
        m.commands (refl, refl) h)
publish_step-IsDated (writing operation run_id p ps) m (n, a, w) h =
    end_write-IsDated p.outcome operation run_id p ps m w h
publish_step-IsDated (logging operation run_id p message ps) m c h =
    update-error-IsDated p.command_id p.later message m.commands h

begin_publish-IsDated :
    (p : Publisher) (operation run_id : String) (ps : List Planned) (m : Missions)
    → All IsDated m.commands
    → All IsDated (begin_publish p operation run_id ps m).commands
unfolding begin_publish
begin_publish-IsDated idle operation run_id ps m h = elim (Bool-cases (any_in_use ps m.commands)) [
  | inl b ↦ rw b h
  | inr b ↦ rw b h
]
begin_publish-IsDated (ready _ _ _) operation run_id ps m h = h
begin_publish-IsDated (writing _ _ _ _) operation run_id ps m h = h
begin_publish-IsDated (logging _ _ _ _ _) operation run_id ps m h = h

change_run-IsDated :
    (p : Publisher) (m : Missions) → All IsDated m.commands → All IsDated (change_run p m).commands
unfolding change_run
change_run-IsDated idle m h = tt
change_run-IsDated (ready _ _ _) m h = h
change_run-IsDated (writing _ _ _ _) m h = h
change_run-IsDated (logging _ _ _ _ _) m h = h

run_op-IsDated :
    (op : Op) (m : Missions)
    → IsReady m
    → All IsDated m.commands
    → All IsDated (run_op op m).commands
unfolding run_op record_mission_ack expire_mission_commands
run_op-IsDated (expired now) m r h = expire_all-IsDated now m.commands h
run_op-IsDated (acked now s) m r h = take_ack-IsDated now s (lookup s.command_id m.commands) m h
run_op-IsDated run_changed m r h = change_run-IsDated m.publisher m h
run_op-IsDated (requested operation run_id ps) m r h =
    begin_publish-IsDated m.publisher operation run_id ps m h
run_op-IsDated published m r h = publish_step-IsDated m.publisher m r.can_publish h

-- After any steps of the server's threads, where the identifiers within one request differ, each command of
-- the history says what has happened to it: a pending one has no time-out and no acknowledgement, a
-- timed-out one has its time-out and no acknowledgement, a failed one has an error and was not
-- published, and an accepted or rejected one has its acknowledgement, marked as late exactly when the
-- command had timed out before.
pub run_ops-IsDated :
    (ops : List Op) → All IsDistinct ops → All IsDated (run_ops ops no_missions).commands
unfolding no_missions
run_ops-IsDated ops d =
    (run_ops-keeps (λ m. All IsDated m.commands) (λ op m n. run_op-IsDated op m) ops no_missions d
      no_missions-IsReady tt).0
