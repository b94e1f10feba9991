-- ===== src/Dashboard/Bridge/Missions/History.antt =====
-- The history of mission commands in mesh_bridge.py: its length, and its order by sequence number.
use act_sim_scope_infra.Common.{
  ℕ, ◌≤◌, ◌<◌, ◌≡◌, refl, suc, String, List, [], ◌∷◌, Option, none, some, ltb, length, max, str_eq,
  lookup, insert, string_key, All, arith, inl, inr, Bool-cases, sym,
}
use act_sim_scope_infra.Dashboard.Bridge.Missions.{
  Command, Commands, Missions, Publisher, idle, ready, writing, logging, Planned, AckSample,
  Written, written, refused, unlogged, Op, expired, acked, run_changed, requested, published,
  is_ack_of, history_limit, bound_history, expire_command, expire_all, expire_mission_commands,
  acknowledged, update_command, take_ack, record_mission_ack, new_command, store, mark_published,
  note_error, end_write, publish_step, any_in_use, begin_publish, change_run, run_op, run_ops,
  no_missions,
}
use act_sim_scope_infra.Dashboard.Bridge.Missions.Lookups.{update_command-keeps}
use act_sim_scope_infra.Dashboard.Bridge.Missions.Ready.{
  Absent, CanPublish, IsReady, IsDistinct, run_ops-keeps, no_missions-IsReady,
}

-- The sequence numbers rise along the history, from above `low` up to `high`.
abbrev pub Rising : ℕ → ℕ → Commands → Type 0
Rising low high [] = low ≤ high
Rising low high ((id, c) ∷ d) = (low < c.audit_sequence) × Rising c.audit_sequence high d

Rising-weaken :
    (low lower high : ℕ) (d : Commands) → lower ≤ low → Rising low high d → Rising lower high d
Rising-weaken low lower high [] h r = omega (arith, h, r)
Rising-weaken low lower high ((id, c) ∷ d) h (l, r) = (omega (arith, h, l), r)

bound_history-Rising :
    (low high : ℕ) (d : Commands) → Rising low high d → Rising low high (bound_history d)
unfolding bound_history
bound_history-Rising low high [] r = r
bound_history-Rising low high ((id, c) ∷ d) (l, r) =
    elim (Bool-cases (ltb history_limit (suc (length d)))) [
      | inl b ↦ rw b (
          Rising-weaken c.audit_sequence low high (bound_history d) (omega (arith, l))
            (bound_history-Rising c.audit_sequence high d r))
      | inr b ↦ rw b (l, r)
    ]

pub bound_history-length : {A : Type 0} (xs : List A) → length (bound_history xs) ≤ history_limit
unfolding bound_history
bound_history-length [] = omega arith
bound_history-length (x ∷ xs) = elim (Bool-cases (ltb history_limit (suc (length xs)))) [
  | inl b ↦ rw b (bound_history-length xs)
  | inr b ↦ rw b (ground (arith, b))
]

expire_command-sequence :
    (now : ℕ) (c : Command) → (expire_command now c).audit_sequence ≡ c.audit_sequence
unfolding expire_command
expire_command-sequence now c = ground arith

expire_all-Rising :
    (now low high : ℕ) (d : Commands) → Rising low high d → Rising low high (expire_all now d)
unfolding expire_all
expire_all-Rising now low high [] r = r
expire_all-Rising now low high ((id, c) ∷ d) (l, r) =
    rw (expire_command-sequence now c) (l, expire_all-Rising now c.audit_sequence high d r)

expire_all-length : (now : ℕ) (d : Commands) → length (expire_all now d) ≡ length d
unfolding expire_all
expire_all-length now [] = refl
expire_all-length now ((id, c) ∷ d) = omega (arith, expire_all-length now d)

-- A command is replaced by one of its number.
insert-Rising :
    (low high : ℕ) (id : String) (c next : Command) (d : Commands)
    → lookup id d ≡ some c
    → next.audit_sequence ≡ c.audit_sequence
    → Rising low high d
    → Rising low high (insert id next d)
insert-Rising low high id c next [] h e r = absurd (ground (arith, h))
insert-Rising low high id c next ((j, w) ∷ d) h e (l, r) = elim (Bool-cases (str_eq j id)) [
  | inl b ↦ let same : w ≡ c = ground (arith, h, b) in rw (b, e, sym same) (l, r)
  | inr b ↦ rw b (l, insert-Rising w.audit_sequence high id c next d (ground (arith, h, b)) e r)
]

insert-length :
    (id : String) (c next : Command) (d : Commands)
    → lookup id d ≡ some c
    → length (insert id next d) ≡ length d
insert-length id c next [] h = absurd (ground (arith, h))
insert-length id c next ((j, w) ∷ d) h = elim (Bool-cases (str_eq j id)) [
  | inl b ↦ rw b refl
  | inr b ↦ rw b (omega (arith, insert-length id c next d (ground (arith, h, b))))
]

-- A new command of a greater number is the last.
append-Rising :
    (low high : ℕ) (id : String) (c : Command) (d : Commands)
    → lookup id d ≡ none
    → high < c.audit_sequence
    → Rising low high d
    → Rising low c.audit_sequence (insert id c d)
append-Rising low high id c [] h e r = (omega (arith, e, r), omega arith)
append-Rising low high id c ((j, w) ∷ d) h e (l, r) = elim (Bool-cases (str_eq j id)) [
  | inl b ↦ absurd (ground (arith, h, b))
  | inr b ↦ rw b (l, append-Rising w.audit_sequence high id c d (ground (arith, h, b)) e r)
]

abbrev pub IsHistory : Missions → Type 0
IsHistory m = (length m.commands ≤ history_limit) × Rising 0 m.sequence m.commands

expire-IsHistory :
    (now : ℕ) (m : Missions) → IsHistory m → IsHistory (expire_mission_commands now m)
unfolding expire_mission_commands
expire-IsHistory now m (l, r) = (
  omega (arith, l, expire_all-length now m.commands),
  expire_all-Rising now 0 m.sequence m.commands r,
)

-- A change that keeps a command's number keeps the history.
update_command-IsHistory :
    (id : String) (f : Command → Command) (m : Missions)
    → ((c : Command) → (f c).audit_sequence ≡ c.audit_sequence)
    → IsHistory m
    → (length (update_command id f m.commands) ≤ history_limit)
      × Rising 0 m.sequence (update_command id f m.commands)
update_command-IsHistory id f m same (l, r) =
    update_command-keeps (λ d. (length d ≤ history_limit) × Rising 0 m.sequence d) id f m.commands
      (λ c e. (
        omega (arith, l, insert-length id c (f c) m.commands e),
        insert-Rising 0 m.sequence id c (f c) m.commands e (same c) r,
      ))
      (l, r)

take_ack-IsHistory :
    (now : ℕ) (s : AckSample) (o : Option Command) (m : Missions)
    → IsHistory m
    → IsHistory (take_ack now s o m).1
unfolding take_ack acknowledged
take_ack-IsHistory now s none m h = h
take_ack-IsHistory now s (some c) m h = elim (Bool-cases (is_ack_of s c)) [
  | inr b ↦ rw b h
  | inl b ↦ rw b (update_command-IsHistory s.command_id (acknowledged now s) m (λ c'. refl) h)
]

store-IsHistory :
    (operation run_id : String) (p : Planned) (ps : List Planned) (m : Missions)
    → Absent m.commands p
    → IsHistory m
    → IsHistory (store operation run_id p ps m)
unfolding store new_command
store-IsHistory operation run_id p ps m a (l, r) =
    let sequence = max (suc m.sequence) p.time_ns in
    let c = new_command operation run_id sequence p in
    (
      bound_history-length (insert p.command_id c m.commands),
      bound_history-Rising 0 sequence (insert p.command_id c m.commands)
          (append-Rising 0 m.sequence p.command_id c m.commands a (omega arith) r),
    )

end_write-IsHistory :
    (w : Written) (operation run_id : String) (p : Planned) (ps : List Planned) (m : Missions)
    → IsHistory m
    → IsHistory (end_write w operation run_id p ps m)
unfolding end_write
end_write-IsHistory written operation run_id p ps m h =
    update_command-IsHistory p.command_id mark_published m (λ c. refl) h
end_write-IsHistory (refused message) operation run_id p ps m h =
    update_command-IsHistory p.command_id (note_error p.later message) m (λ c. refl) h
end_write-IsHistory (unlogged message) operation run_id p ps m h =
    update_command-IsHistory p.command_id mark_published m (λ c. refl) h

publish_step-IsHistory :
    (p : Publisher) (m : Missions)
    → CanPublish p m.commands
    → IsHistory m
    → IsHistory (publish_step p m)
unfolding publish_step
publish_step-IsHistory idle m c h = h
publish_step-IsHistory (ready operation run_id []) m c h = h
publish_step-IsHistory (ready operation run_id (p ∷ ps)) m (n, (a, rest)) h =
    store-IsHistory operation run_id p ps m a h
publish_step-IsHistory (writing operation run_id p ps) m c h =
    end_write-IsHistory p.outcome operation run_id p ps m h
publish_step-IsHistory (logging operation run_id p message ps) m c h =
    update_command-IsHistory p.command_id (note_error p.later message) m (λ d. refl) h

begin_publish-IsHistory :
    (p : Publisher) (operation run_id : String) (ps : List Planned) (m : Missions)
    → IsHistory m
    → IsHistory (begin_publish p operation run_id ps m)
unfolding begin_publish
begin_publish-IsHistory idle operation run_id ps m h =
    elim (Bool-cases (any_in_use ps m.commands)) [ inl b ↦ rw b h | inr b ↦ rw b h ]
begin_publish-IsHistory (ready _ _ _) operation run_id ps m h = h
begin_publish-IsHistory (writing _ _ _ _) operation run_id ps m h = h
begin_publish-IsHistory (logging _ _ _ _ _) operation run_id ps m h = h

change_run-IsHistory : (p : Publisher) (m : Missions) → IsHistory m → IsHistory (change_run p m)
unfolding change_run
change_run-IsHistory idle m h = (omega arith, omega arith)
change_run-IsHistory (ready _ _ _) m h = h
change_run-IsHistory (writing _ _ _ _) m h = h
change_run-IsHistory (logging _ _ _ _ _) m h = h

run_op-IsHistory : (op : Op) (m : Missions) → IsReady m → IsHistory m → IsHistory (run_op op m)
unfolding run_op record_mission_ack
run_op-IsHistory (expired now) m r h = expire-IsHistory now m h
run_op-IsHistory (acked now s) m r h = take_ack-IsHistory now s (lookup s.command_id m.commands) m h
run_op-IsHistory run_changed m r h = change_run-IsHistory m.publisher m h
run_op-IsHistory (requested operation run_id ps) m r h =
    begin_publish-IsHistory m.publisher operation run_id ps m h
run_op-IsHistory published m r h = publish_step-IsHistory m.publisher m r.can_publish h

-- After any requests, acknowledgements and expiries, steps of the publisher and changes of the run, in any
-- order and with any clock, where the identifiers within one request differ, the history holds at most
-- 200 commands, in the order of their sequence numbers, which are all different and no greater than the
-- counter.
pub run_ops-IsHistory : (ops : List Op) → All IsDistinct ops → IsHistory (run_ops ops no_missions)
unfolding no_missions
run_ops-IsHistory ops d =
    (run_ops-keeps IsHistory (λ op m n. run_op-IsHistory op m) ops no_missions d no_missions-IsReady
      (omega arith, omega arith)).0
