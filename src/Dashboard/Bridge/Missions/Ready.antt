-- ===== src/Dashboard/Bridge/Missions/Ready.antt =====
-- What holds of the history of mission commands in mesh_bridge.py while one of them is being published.
use act_sim_scope_infra.Common.{
  ℕ, ◌+◌, ◌≡◌, refl, sym, ap, subst, ◌∙◌, suc, String, List, [], ◌∷◌, true, false, ◌&&◌, Option,
  none, some, leb, max, any, str_eq, eq_iff, lookup, insert, string_key, arith, inl, inr,
  Bool-cases, lookup-insert, lookup-insert_self, All, Unique, insert-Unique,
}
use act_sim_scope_infra.Dashboard.Bridge.Missions.{
  Command, Commands, Missions, Publisher, idle, ready, writing, logging, Planned, AckSample,
  Written, written, refused, unlogged, Op, expired, acked, run_changed, requested, published,
  is_failed, is_pending, is_ack_of, ack_timeout_ms, bound_history, expire_command, expire_all,
  expire_mission_commands, acknowledged, update_command, take_ack, record_mission_ack, new_command,
  store, mark_published, note_error, end_write, publish_step, any_in_use, begin_publish, change_run,
  run_op, run_ops, no_missions,
}
use act_sim_scope_infra.Dashboard.Bridge.Missions.Lookups.{
  apply, lookup-expire_all, lookup-update_command, lookup-bound_history, expire_all-Unique,
  bound_history-Unique, update_command-absent, update_command-found, insert-Unique-update,
}

-- No command has the identifier yet.
abbrev pub Absent : Commands → Planned → Type 0
Absent d p = lookup p.command_id d ≡ none

-- The identifiers of one request are different.
abbrev pub Distinct : List Planned → Type 0
Distinct [] = Unit
Distinct (p ∷ ps) = (any (λ q. str_eq p.command_id q.command_id) ps ≡ false) × Distinct ps

abbrev pub Unwritten : Option Command → Type 0
Unwritten none = Unit
Unwritten (some c) = (c.published ≡ false) × (is_failed c.state ≡ false)

abbrev pub Published : Option Command → Type 0
Published none = Unit
Published (some c) = c.published ≡ true

abbrev pub CanPublish : Publisher → Commands → Type 0
CanPublish idle d = Unit
CanPublish (ready operation run_id ps) d = Distinct ps × All (Absent d) ps
CanPublish (writing operation run_id p ps) d =
    Distinct ps × All (Absent d) ps × Unwritten (lookup p.command_id d)
CanPublish (logging operation run_id p message ps) d =
    Distinct ps × All (Absent d) ps × Published (lookup p.command_id d)

pub record IsReady (m : Missions) : Type 0 where
  pub unique : Unique m.commands
  pub can_publish : CanPublish m.publisher m.commands

-- What a change of the commands has to keep for the publisher.
record Keeps (d e : Commands) : Type 0 where
  absent : (k : String) → lookup k d ≡ none → lookup k e ≡ none
  unwritten : (k : String) → Unwritten (lookup k d) → Unwritten (lookup k e)
  published : (k : String) → Published (lookup k d) → Published (lookup k e)

Keeps-Absent :
    (d e : Commands) (ps : List Planned)
    → ((k : String) → lookup k d ≡ none → lookup k e ≡ none)
    → All (Absent d) ps
    → All (Absent e) ps
Keeps-Absent d e [] h a = tt
Keeps-Absent d e (p ∷ ps) h (a, as_) = (h p.command_id a, Keeps-Absent d e ps h as_)

Keeps-CanPublish : (p : Publisher) (d e : Commands) → Keeps d e → CanPublish p d → CanPublish p e
Keeps-CanPublish idle d e h c = tt
Keeps-CanPublish (ready operation run_id ps) d e h (u, a) = (u, Keeps-Absent d e ps h.absent a)
Keeps-CanPublish (writing operation run_id p ps) d e h (u, a, w) =
    (u, Keeps-Absent d e ps h.absent a, h.unwritten p.command_id w)
Keeps-CanPublish (logging operation run_id p message ps) d e h (u, a, w) =
    (u, Keeps-Absent d e ps h.absent a, h.published p.command_id w)

expire_command-Unwritten :
    (now : ℕ) (o : Option Command) → Unwritten o → Unwritten (apply (expire_command now) o)
unfolding expire_command
expire_command-Unwritten now none w = tt
expire_command-Unwritten now (some c) (p, f) =
    elim (Bool-cases (is_pending c.state && leb (c.created_at + ack_timeout_ms) now)) [
      | inl b ↦ rw b (p, refl)
      | inr b ↦ rw b (p, f)
    ]

expire_command-Published :
    (now : ℕ) (o : Option Command) → Published o → Published (apply (expire_command now) o)
unfolding expire_command
expire_command-Published now none w = tt
expire_command-Published now (some c) p =
    elim (Bool-cases (is_pending c.state && leb (c.created_at + ack_timeout_ms) now)) [
      | inl b ↦ rw b p
      | inr b ↦ rw b p
    ]

expire_all-Keeps : (now : ℕ) (d : Commands) → Keeps d (expire_all now d)
expire_all-Keeps now d = record {
  absent = λ k h. lookup-expire_all now k d ∙ ap (apply (expire_command now)) h;
  unwritten = λ k w.
      subst Unwritten (sym (lookup-expire_all now k d))
        (expire_command-Unwritten now (lookup k d) w);
  published = λ k w.
      subst Published (sym (lookup-expire_all now k d))
        (expire_command-Published now (lookup k d) w);
}

acknowledged-Unwritten :
    (now : ℕ) (s : AckSample) (o : Option Command)
    → Unwritten o
    → Unwritten (apply (acknowledged now s) o)
unfolding acknowledged
acknowledged-Unwritten now s none w = tt
acknowledged-Unwritten now s (some c) (p, f) = elim (Bool-cases s.accepted) [
  | inl b ↦ rw b (p, refl)
  | inr b ↦ rw b (p, refl)
]

acknowledged-Published :
    (now : ℕ) (s : AckSample) (o : Option Command)
    → Published o
    → Published (apply (acknowledged now s) o)
unfolding acknowledged
acknowledged-Published now s none w = tt
acknowledged-Published now s (some c) p = p

acknowledged-Keeps :
    (now : ℕ) (s : AckSample) (d : Commands)
    → Keeps d (update_command s.command_id (acknowledged now s) d)
acknowledged-Keeps now s d = record {
  absent = λ k. update_command-absent s.command_id k (acknowledged now s) d;
  unwritten = λ k.
      update_command-found Unwritten s.command_id k (acknowledged now s) d
        (acknowledged-Unwritten now s (lookup k d));
  published = λ k.
      update_command-found Published s.command_id k (acknowledged now s) d
        (acknowledged-Published now s (lookup k d));
}

take_ack-IsReady :
    (now : ℕ) (s : AckSample) (o : Option Command) (m : Missions)
    → IsReady m
    → IsReady (take_ack now s o m).1
unfolding take_ack
take_ack-IsReady now s none m r = r
take_ack-IsReady now s (some c) m r = elim (Bool-cases (is_ack_of s c)) [
  | inr b ↦ rw b r
  | inl b ↦ rw b (record {
    unique = insert-Unique-update s.command_id (acknowledged now s) m.commands r.unique;
    can_publish =
        Keeps-CanPublish m.publisher m.commands _ (acknowledged-Keeps now s m.commands)
          r.can_publish;
  })
]

-- A new command is stored, and the names to come stay free.
store-Absent :
    (p : Planned) (c : Command) (d : Commands) (qs : List Planned)
    → Unique d
    → any (λ q. str_eq p.command_id q.command_id) qs ≡ false
    → All (Absent d) qs
    → All (Absent (bound_history (insert p.command_id c d))) qs
store-Absent p c d [] u n a = tt
store-Absent p c d (q ∷ qs) u n (a, rest) = (
  lookup-bound_history (λ o. o ≡ none) q.command_id (insert p.command_id c d) refl
      (insert-Unique p.command_id c d u)
      (ground (arith, lookup-insert p.command_id q.command_id c d, n, a)),
  store-Absent p c d qs u (ground (arith, n)) rest,
)

store-IsReady :
    (operation run_id : String) (p : Planned) (ps : List Planned) (m : Missions)
    → Unique m.commands
    → CanPublish (ready operation run_id (p ∷ ps)) m.commands
    → IsReady (store operation run_id p ps m)
unfolding store new_command
store-IsReady operation run_id p ps m u ((n, distinct), (a, rest)) =
    let c = new_command operation run_id (max (suc m.sequence) p.time_ns) p in
    let unique = insert-Unique p.command_id c m.commands u in
    record {
      unique = bound_history-Unique (insert p.command_id c m.commands) unique;
      can_publish = (
        distinct,
        store-Absent p c m.commands ps u n rest,
        lookup-bound_history Unwritten p.command_id (insert p.command_id c m.commands) tt unique
            (subst Unwritten (sym (lookup-insert_self p.command_id c m.commands)) (refl, refl)),
      );
    }

mark_published-Published : (o : Option Command) → Published (apply mark_published o)
mark_published-Published none = tt
mark_published-Published (some c) = refl

update-Absent-All :
    (id : String) (f : Command → Command) (d : Commands) (ps : List Planned)
    → All (Absent d) ps
    → All (Absent (update_command id f d)) ps
update-Absent-All id f d ps =
    Keeps-Absent d (update_command id f d) ps (λ k. update_command-absent id k f d)

end_write-IsReady :
    (w : Written) (operation run_id : String) (p : Planned) (ps : List Planned) (m : Missions)
    → Unique m.commands
    → CanPublish (writing operation run_id p ps) m.commands
    → IsReady (end_write w operation run_id p ps m)
unfolding end_write
end_write-IsReady written operation run_id p ps m u (n, a, w) = record {
  unique = insert-Unique-update p.command_id mark_published m.commands u;
  can_publish = (n, update-Absent-All p.command_id mark_published m.commands ps a);
}
end_write-IsReady (refused message) operation run_id p ps m u (n, a, w) = record {
  unique = insert-Unique-update p.command_id (note_error p.later message) m.commands u;
  can_publish = (n, update-Absent-All p.command_id (note_error p.later message) m.commands ps a);
}
end_write-IsReady (unlogged message) operation run_id p ps m u (n, a, w) = record {
  unique = insert-Unique-update p.command_id mark_published m.commands u;
  can_publish = (
    n,
    update-Absent-All p.command_id mark_published m.commands ps a,
    subst Published
        (sym (lookup-update_command p.command_id p.command_id mark_published m.commands))
        (rw ((eq_iff p.command_id p.command_id).1 refl)
          (mark_published-Published (lookup p.command_id m.commands))),
  );
}

publish_step-IsReady :
    (p : Publisher) (m : Missions)
    → Unique m.commands
    → CanPublish p m.commands
    → CanPublish m.publisher m.commands
    → IsReady (publish_step p m)
unfolding publish_step
publish_step-IsReady idle m u c own = record { unique = u; can_publish = own }
publish_step-IsReady (ready operation run_id []) m u c own = record { unique = u; can_publish = tt }
publish_step-IsReady (ready operation run_id (p ∷ ps)) m u c own =
    store-IsReady operation run_id p ps m u c
publish_step-IsReady (writing operation run_id p ps) m u c own =
    end_write-IsReady p.outcome operation run_id p ps m u c
publish_step-IsReady (logging operation run_id p message ps) m u (n, a, w) own = record {
  unique = insert-Unique-update p.command_id (note_error p.later message) m.commands u;
  can_publish = (n, update-Absent-All p.command_id (note_error p.later message) m.commands ps a);
}

contains-Absent : (ps : List Planned) (d : Commands) → any_in_use ps d ≡ false → All (Absent d) ps
contains-Absent [] d h = tt
contains-Absent (p ∷ ps) d h = (ground (arith, h), contains-Absent ps d (ground (arith, h)))

begin_publish-IsReady :
    (p : Publisher) (operation run_id : String) (ps : List Planned) (m : Missions)
    → Distinct ps
    → IsReady m
    → IsReady (begin_publish p operation run_id ps m)
unfolding begin_publish
begin_publish-IsReady idle operation run_id ps m n r =
    elim (Bool-cases (any_in_use ps m.commands)) [
      | inl b ↦ rw b r
      | inr b ↦
          rw b (record { unique = r.unique; can_publish = (n, contains-Absent ps m.commands b) })
    ]
begin_publish-IsReady (ready _ _ _) operation run_id ps m n r = r
begin_publish-IsReady (writing _ _ _ _) operation run_id ps m n r = r
begin_publish-IsReady (logging _ _ _ _ _) operation run_id ps m n r = r

change_run-IsReady :
    (p : Publisher) (m : Missions) → m.publisher ≡ p → IsReady m → IsReady (change_run p m)
unfolding change_run
change_run-IsReady idle m e r = record { unique = tt; can_publish = rw e tt }
change_run-IsReady (ready _ _ _) m e r = r
change_run-IsReady (writing _ _ _ _) m e r = r
change_run-IsReady (logging _ _ _ _ _) m e r = r

-- The identifiers within each request differ.
abbrev pub IsDistinct : Op → Type 0
IsDistinct (requested operation run_id ps) = Distinct ps
IsDistinct (expired now) = Unit
IsDistinct (acked now s) = Unit
IsDistinct run_changed = Unit
IsDistinct published = Unit

pub run_op-IsReady : (op : Op) (m : Missions) → IsDistinct op → IsReady m → IsReady (run_op op m)
unfolding run_op record_mission_ack expire_mission_commands
run_op-IsReady (expired now) m n r = record {
  unique = expire_all-Unique now m.commands r.unique;
  can_publish =
      Keeps-CanPublish m.publisher m.commands _ (expire_all-Keeps now m.commands) r.can_publish;
}
run_op-IsReady (acked now s) m n r = take_ack-IsReady now s (lookup s.command_id m.commands) m r
run_op-IsReady run_changed m n r = change_run-IsReady m.publisher m refl r
run_op-IsReady (requested operation run_id ps) m n r =
    begin_publish-IsReady m.publisher operation run_id ps m n r
run_op-IsReady published m n r =
    publish_step-IsReady m.publisher m r.unique r.can_publish r.can_publish

-- What every operation keeps, given that the publisher is ready, holds after all of them.
pub run_ops-keeps :
    (P : Missions → Type 0)
    → ((op : Op) (m : Missions) → IsDistinct op → IsReady m → P m → P (run_op op m))
    → (ops : List Op) (m : Missions) → All IsDistinct ops
    → IsReady m
    → P m
    → P (run_ops ops m) × IsReady (run_ops ops m)
unfolding run_ops
run_ops-keeps P h [] m n r p = (p, r)
run_ops-keeps P h (op ∷ ops) m (n, ns) r p =
    run_ops-keeps P h ops (run_op op m) ns (run_op-IsReady op m n r) (h op m n r p)

pub no_missions-IsReady : IsReady no_missions
unfolding no_missions
no_missions-IsReady = record { unique = tt; can_publish = tt }
