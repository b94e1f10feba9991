-- ===== src/Dashboard/Bridge/Missions/Settled.antt =====
-- The states that a mission command of mesh_bridge.py goes through.
use act_sim_scope_infra.Common.{
  ℕ, ◌+◌, ◌≡◌, refl, suc, String, List, [], ◌∷◌, Bool, true, false, ◌&&◌, Option, none, some, leb,
  max, if◌then◌else◌, str_eq, eq_iff, lookup, insert, string_key, arith, inl, inr, Bool-cases,
  lookup-insert, sym, ap, ◌∙◌, ◌⊎◌, some-injective, subst, Unique, insert-Unique, All,
}
use act_sim_scope_infra.Dashboard.Bridge.Missions.{
  Command, Commands, CommandState, pending, accepted, rejected, timed_out, failed, Missions,
  Publisher, idle, ready, writing, logging, Planned, AckSample, Written, written, refused, unlogged,
  Op, expired, acked, run_changed, requested, published, expire_command, expire_mission_commands,
  acknowledged, update_command, take_ack, record_mission_ack, is_ack_of, is_pending, is_failed,
  ack_timeout_ms, new_command, store, mark_published, note_error, end_write, publish_step,
  any_in_use, begin_publish, change_run, run_op, run_ops, no_missions,
}
use act_sim_scope_infra.Dashboard.Bridge.Missions.Lookups.{
  apply, lookup-expire_all, lookup-update_command, lookup-bound_history,
}
use act_sim_scope_infra.Dashboard.Bridge.Missions.Ready.{
  Absent, CanPublish, Unwritten, Published, IsReady, IsDistinct, run_ops-keeps, no_missions-IsReady,
}

-- A state, with whether the command is published.
abbrev pub Stage : Type 0
Stage = CommandState × Bool

abbrev pub stage_of : Command → Stage
stage_of c = (c.state, c.published)

-- A step of one command: it times out, or is acknowledged, again or late, whether published yet or not; it
-- is published, or fails before that. A failed one takes none.
pub data Step : Stage → Stage → Type 0 where
  expires : (was_published : Bool) → Step (pending, was_published) (timed_out, was_published)
  acknowledges :
      (from : CommandState) (was_published value : Bool)
      → is_failed from ≡ false
      → Step (from, was_published) (if value then accepted else rejected, was_published)
  publishes : (from : CommandState) → is_failed from ≡ false → Step (from, false) (from, true)
  fails : (from : CommandState) → is_failed from ≡ false → Step (from, false) (failed, false)

-- What is found under an identifier afterwards: nothing, or a command where it was or a step further.
abbrev pub After : Stage → Option Command → Type 0
After s none = Unit
After s (some c) = (s ≡ stage_of c) ⊎ Step s (stage_of c)

abbrev staged : Bool → CommandState → Stage
staged b s = (s, b)

pending-Step : (s : CommandState) (b : Bool) → is_pending s ≡ true → Step (s, b) (timed_out, b)
pending-Step pending b h = expires b
pending-Step accepted b h = absurd (ground (arith, h))
pending-Step rejected b h = absurd (ground (arith, h))
pending-Step timed_out b h = absurd (ground (arith, h))
pending-Step failed b h = absurd (ground (arith, h))

After-same : (o : Option Command) (c : Command) → o ≡ some c → After (stage_of c) o
After-same o c e = subst (After (stage_of c)) (sym e) (inl refl)

expire_command-After : (now : ℕ) (c : Command) → After (stage_of c) (some (expire_command now c))
unfolding expire_command
expire_command-After now c =
    elim (Bool-cases (is_pending c.state && leb (c.created_at + ack_timeout_ms) now)) [
      | inr b ↦ rw b (inl refl)
      | inl b ↦ rw b (inr (pending-Step c.state c.published (ground (arith, b))))
    ]

-- An update takes the command that it is about a step further, and leaves the others.
update_command-After :
    (id k : String) (f : Command → Command) (d : Commands) (c : Command)
    → lookup k d ≡ some c
    → (str_eq id k ≡ true → After (stage_of c) (some (f c)))
    → After (stage_of c) (lookup k (update_command id f d))
update_command-After id k f d c e h =
    subst (After (stage_of c)) (sym (lookup-update_command id k f d))
      (elim (Bool-cases (str_eq id k)) [ inl b ↦ rw (b, e) (h b) | inr b ↦ rw (b, e) (inl refl) ])

acknowledged-After :
    (now : ℕ) (s : AckSample) (c : Command)
    → is_failed c.state ≡ false
    → After (stage_of c) (some (acknowledged now s c))
unfolding acknowledged
acknowledged-After now s c h = inr (acknowledges c.state c.published s.accepted h)

take_ack-After :
    (now : ℕ) (s : AckSample) (o : Option Command) (m : Missions) (k : String) (c : Command)
    → lookup s.command_id m.commands ≡ o
    → lookup k m.commands ≡ some c
    → After (stage_of c) (lookup k (take_ack now s o m).1.commands)
unfolding take_ack
take_ack-After now s none m k c h e = After-same (lookup k m.commands) c e
take_ack-After now s (some d) m k c h e = elim (Bool-cases (is_ack_of s d)) [
  | inr b ↦ rw b (After-same (lookup k m.commands) c e)
  | inl b ↦ rw b (
      update_command-After s.command_id k (acknowledged now s) m.commands c e (λ n.
        let same : d ≡ c =
          some-injective d c
            (sym h ∙ ap (λ i. lookup i m.commands) ((eq_iff s.command_id k).0 n) ∙ e) in
        acknowledged-After now s c
          (subst (λ x. is_failed x.state ≡ false) same (ground (arith, b)))))
]

-- The command being written is found under its identifier.
Unwritten-found :
    (id k : String) (d : Commands) (c : Command)
    → str_eq id k ≡ true
    → lookup k d ≡ some c
    → Unwritten (lookup id d)
    → Unwritten (some c)
Unwritten-found id k d c n e w = subst Unwritten (ap (λ i. lookup i d) ((eq_iff id k).0 n) ∙ e) w

mark_published-After :
    (id k : String) (d : Commands) (c : Command)
    → lookup k d ≡ some c
    → Unwritten (lookup id d)
    → After (stage_of c) (lookup k (update_command id mark_published d))
mark_published-After id k d c e w = update_command-After id k mark_published d c e (λ n.
    let (was, going) = Unwritten-found id k d c n e w in
    inr (subst (λ b. Step (c.state, b) (c.state, true)) (sym was) (publishes c.state going)))

-- An error before the command is published fails it.
note_error-After :
    (id k : String) (now : ℕ) (message : String) (d : Commands) (c : Command)
    → lookup k d ≡ some c
    → Unwritten (lookup id d)
    → After (stage_of c) (lookup k (update_command id (note_error now message) d))
note_error-After id k now message d c e w =
    update_command-After id k (note_error now message) d c e (λ n.
      let (was, going) = Unwritten-found id k d c n e w in
      inr (
        subst (λ b. Step (c.state, b) (if b then c.state else failed, b)) (sym was)
          (fails c.state going)))

-- An error after that leaves its state.
late_error-After :
    (id k : String) (now : ℕ) (message : String) (d : Commands) (c : Command)
    → lookup k d ≡ some c
    → Published (lookup id d)
    → After (stage_of c) (lookup k (update_command id (note_error now message) d))
late_error-After id k now message d c e w =
    update_command-After id k (note_error now message) d c e (λ n.
      let was = subst Published (ap (λ i. lookup i d) ((eq_iff id k).0 n) ∙ e) w in
      inl (ap (staged c.published) (sym (ap (λ b. if b then c.state else failed) was))))

end_write-After :
    (w : Written) (operation run_id : String) (p : Planned) (ps : List Planned) (m : Missions)
    (k : String) (c : Command)
    → lookup k m.commands ≡ some c
    → Unwritten (lookup p.command_id m.commands)
    → After (stage_of c) (lookup k (end_write w operation run_id p ps m).commands)
unfolding end_write
end_write-After written operation run_id p ps m k c e w =
    mark_published-After p.command_id k m.commands c e w
end_write-After (refused message) operation run_id p ps m k c e w =
    note_error-After p.command_id k p.later message m.commands c e w
end_write-After (unlogged message) operation run_id p ps m k c e w =
    mark_published-After p.command_id k m.commands c e w

store-After :
    (operation run_id : String) (p : Planned) (ps : List Planned) (m : Missions) (k : String)
    (c : Command)
    → Unique m.commands
    → Absent m.commands p
    → lookup k m.commands ≡ some c
    → After (stage_of c) (lookup k (store operation run_id p ps m).commands)
unfolding store
store-After operation run_id p ps m k c u a e =
    let new = new_command operation run_id (max (suc m.sequence) p.time_ns) p in
    lookup-bound_history (After (stage_of c)) k (insert p.command_id new m.commands) tt
      (insert-Unique p.command_id new m.commands u)
      (elim (Bool-cases (str_eq p.command_id k)) [
        | inr n ↦ rw (lookup-insert p.command_id k new m.commands, n, e) (inl refl)
        | inl n ↦ absurd (cc (a, e, ap (λ i. lookup i m.commands) ((eq_iff p.command_id k).0 n)))
      ])

publish_step-After :
    (p : Publisher) (m : Missions) (k : String) (c : Command)
    → Unique m.commands
    → CanPublish p m.commands
    → lookup k m.commands ≡ some c
    → After (stage_of c) (lookup k (publish_step p m).commands)
unfolding publish_step
publish_step-After idle m k c u r e = After-same (lookup k m.commands) c e
publish_step-After (ready operation run_id []) m k c u r e = After-same (lookup k m.commands) c e
publish_step-After (ready operation run_id (p ∷ ps)) m k c u (n, (a, rest)) e =
    store-After operation run_id p ps m k c u a e
publish_step-After (writing operation run_id p ps) m k c u (n, a, w) e =
    end_write-After p.outcome operation run_id p ps m k c e w
publish_step-After (logging operation run_id p message ps) m k c u (n, a, w) e =
    late_error-After p.command_id k p.later message m.commands c e w

begin_publish-After :
    (p : Publisher) (operation run_id : String) (ps : List Planned) (m : Missions) (k : String)
    (c : Command)
    → lookup k m.commands ≡ some c
    → After (stage_of c) (lookup k (begin_publish p operation run_id ps m).commands)
unfolding begin_publish
begin_publish-After idle operation run_id ps m k c e =
    elim (Bool-cases (any_in_use ps m.commands)) [
      | inl b ↦ rw b (After-same (lookup k m.commands) c e)
      | inr b ↦ rw b (After-same (lookup k m.commands) c e)
    ]
begin_publish-After (ready _ _ _) operation run_id ps m k c e = After-same (lookup k m.commands) c e
begin_publish-After (writing _ _ _ _) operation run_id ps m k c e =
    After-same (lookup k m.commands) c e
begin_publish-After (logging _ _ _ _ _) operation run_id ps m k c e =
    After-same (lookup k m.commands) c e

change_run-After :
    (p : Publisher) (m : Missions) (k : String) (c : Command)
    → lookup k m.commands ≡ some c
    → After (stage_of c) (lookup k (change_run p m).commands)
unfolding change_run
change_run-After idle m k c e = tt
change_run-After (ready _ _ _) m k c e = After-same (lookup k m.commands) c e
change_run-After (writing _ _ _ _) m k c e = After-same (lookup k m.commands) c e
change_run-After (logging _ _ _ _ _) m k c e = After-same (lookup k m.commands) c e

step-After :
    (op : Op) (m : Missions) (k : String) (c : Command)
    → IsReady m
    → lookup k m.commands ≡ some c
    → After (stage_of c) (lookup k (run_op op m).commands)
unfolding run_op record_mission_ack expire_mission_commands
step-After (expired now) m k c r e =
    subst (After (stage_of c))
      (sym (lookup-expire_all now k m.commands ∙ ap (apply (expire_command now)) e))
      (expire_command-After now c)
step-After (acked now s) m k c r e =
    take_ack-After now s (lookup s.command_id m.commands) m k c refl e
step-After run_changed m k c r e = change_run-After m.publisher m k c e
step-After (requested operation run_id ps) m k c r e =
    begin_publish-After m.publisher operation run_id ps m k c e
step-After published m k c r e = publish_step-After m.publisher m k c r.unique r.can_publish e

-- Whatever the server's threads have done, where the identifiers within one request differ, and whatever
-- one of them does next: a command of the history is gone from it afterwards, or is as it was, or has
-- gone one step further. A pending one may time out; one that has not failed is accepted or rejected by
-- an acknowledgement, even before it is published; one that is not published is published or fails,
-- whatever its state; and a failed one stays so.
pub run_op-After :
    (ops : List Op) (op : Op) (k : String) (c : Command)
    → All IsDistinct ops
    → lookup k (run_ops ops no_missions).commands ≡ some c
    → After (stage_of c) (lookup k (run_op op (run_ops ops no_missions)).commands)
run_op-After ops op k c d e =
    let (p, is_ready) =
      run_ops-keeps (λ m. Unit) (λ o m n r p. tt) ops no_missions d no_missions-IsReady tt in
    step-After op (run_ops ops no_missions) k c is_ready e
