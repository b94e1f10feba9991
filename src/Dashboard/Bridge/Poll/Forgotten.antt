-- ===== src/Dashboard/Bridge/Poll/Forgotten.antt =====
-- The counters of `poll_audit_events` in mesh_bridge.py against the events that it keeps, and those that its
-- prunings let go of.
use act_sim_scope_infra.Common.{
  ℕ, ◌≡◌, refl, String, List, [], ◌∷◌, Bool, Option, none, some, str_eq, Dict, string_key, nat_key,
  pair_key, keep, Key, arith, inl, inr, Bool-cases, ap, ◌∙◌, ◌+◌, ◌-◌, map, lookup, Unique,
}
use act_sim_scope_infra.Dashboard.Bridge.Mesh.{Mesh}
use act_sim_scope_infra.Dashboard.Bridge.Recipients.{AuditEvent, expected_recipients}
use act_sim_scope_infra.Dashboard.Bridge.Counts.{version_at}
use act_sim_scope_infra.Dashboard.Bridge.Counts.Tallies.{
  sent_count, received_count, sent_count-keep-le, received_count-keep-le,
}
use act_sim_scope_infra.Dashboard.Bridge.Counts.Recount.{
  NoRepeat, IsRecounted, note_sent-IsRecounted, note_received-IsRecounted,
}
use act_sim_scope_infra.Dashboard.Bridge.Poll.{
  FlowGroup, AuditState, group_of, key_of, is_recent, audit_keep_ns, prune_audit_events, poll_event,
  poll_lines, poll_audit_events, no_events,
}
use act_sim_scope_infra.Dashboard.Bridge.Recipients.Once.{expected_recipients-NoRepeat}

-- The lines of a file, read with one mesh.
pub record File : Type 0 where
  pub lines : List (Option AuditEvent)
  pub now_ns : ℕ

module _ (run_nodes : String → List String) (mesh : Mesh) (f : FlowGroup) (r : String) where
  abbrev pub read_lines : List (Option AuditEvent) → AuditState → AuditState
  read_lines lines = poll_lines run_nodes (map (λ line. (mesh, line)) lines)

  abbrev pub poll_files : List File → AuditState → AuditState
  poll_files files = poll_audit_events run_nodes (
      map (λ file. record { lines = map (λ line. (mesh, line)) file.lines; now_ns = file.now_ns })
        files)

  -- The sent events of the flow's topic and source that are kept and expect its recipient.
  abbrev pub sent_kept : AuditState → ℕ
  sent_kept a = sent_count group_of (expected_recipients run_nodes mesh) f r a.sent

  -- Those of them of which the recipient's received event is kept.
  abbrev pub received_kept : AuditState → ℕ
  received_kept a =
      received_count group_of (expected_recipients run_nodes mesh) f r a.received a.sent

  -- What the pruning after one file leaves.
  abbrev pub pruned : File → AuditState → AuditState
  pruned file a = prune_audit_events (file.now_ns - audit_keep_ns) (read_lines file.lines a)

  -- By how much the prunings lower a count of the events kept.
  abbrev pub forgotten : (AuditState → ℕ) → List File → AuditState → ℕ
  forgotten count [] a = 0
  forgotten count (file ∷ files) a =
      (count (read_lines file.lines a) - count (pruned file a))
      + forgotten count files (pruned file a)

lookup-keep-none :
    {K V : Type 0} ⦃e : Key K⦄ (p : K × V → Bool) (k : K) (d : Dict K V)
    → lookup k d ≡ none
    → lookup k (keep p d) ≡ none
lookup-keep-none p k [] h = refl
lookup-keep-none ⦃e⦄ p k ((j, v) ∷ d) h = elim (Bool-cases (p (j, v))) [
  | inl b ↦ rw b (ground (arith, h, lookup-keep-none p k d))
  | inr b ↦ rw b (ground (arith, h, lookup-keep-none p k d))
]

keep-Unique :
    {K V : Type 0} ⦃e : Key K⦄ (p : K × V → Bool) (d : Dict K V) → Unique d → Unique (keep p d)
keep-Unique p [] u = tt
keep-Unique p ((j, v) ∷ d) (n, u) = elim (Bool-cases (p (j, v))) [
  | inl b ↦ rw b (lookup-keep-none p j d n, keep-Unique p d u)
  | inr b ↦ rw b (keep-Unique p d u)
]

abbrev pair : ℕ → ℕ → ℕ × ℕ
pair s n = (s, n)

pair-eq : {a b c d : ℕ} → a ≡ c → b ≡ d → pair a b ≡ pair c d
pair-eq {b = b} {c = c} p q = ap (λ x. pair x b) p ∙ ap (pair c) q

module _ (run_nodes : String → List String) (mesh : Mesh)
    (unique : (run_id : String) → NoRepeat (run_nodes run_id)) (f : FlowGroup) (r : String) where
  abbrev Recounted : ℕ → ℕ → AuditState → Type 0
  Recounted = IsRecounted group_of (expected_recipients run_nodes mesh) f r

  poll_lines-Recounted :
      (x y : ℕ) (lines : List (Option AuditEvent)) (a : AuditState)
      → Recounted x y a
      → Recounted x y (read_lines run_nodes mesh f r lines a)
  unfolding poll_lines poll_event
  poll_lines-Recounted x y [] a h = h
  poll_lines-Recounted x y (none ∷ lines) a h = poll_lines-Recounted x y lines a h
  poll_lines-Recounted x y (some e ∷ lines) a h =
      poll_lines-Recounted x y lines (poll_event run_nodes mesh e a)
        (elim (Bool-cases (str_eq e.event "sent")) [
          | inl b ↦ rw b (
              note_sent-IsRecounted group_of (expected_recipients run_nodes mesh) f r x y (key_of e)
                e a (expected_recipients-NoRepeat run_nodes mesh unique e) h)
          | inr b ↦ elim (Bool-cases (str_eq e.event "received")) [
            | inl c ↦
                rw (b, c)
                  (note_received-IsRecounted group_of (expected_recipients run_nodes mesh) f r x y
                    (key_of e) e.node e a h)
            | inr c ↦ rw (b, c) h
          ]
        ])

  -- A pruning moves what it lets go of to the events kept no longer.
  prune-Recounted :
      (x y earliest_ns : ℕ) (a : AuditState)
      → Recounted x y a
      → let b = prune_audit_events earliest_ns a in
        Recounted
          ((sent_kept run_nodes mesh f r a - sent_kept run_nodes mesh f r b) + x)
          ((received_kept run_nodes mesh f r a - received_kept run_nodes mesh f r b) + y)
          b
  unfolding prune_audit_events
  prune-Recounted x y earliest_ns a (u, h) = (
    keep-Unique (λ item. is_recent earliest_ns item.1) a.sent u,
    h
        ∙ pair-eq
            (omega (
              arith,
              sent_count-keep-le group_of (expected_recipients run_nodes mesh) f r
                  (λ item. is_recent earliest_ns item.1) a.sent,
            ))
            (omega (
              arith,
              received_count-keep-le group_of (expected_recipients run_nodes mesh) f r
                  (λ item. is_recent earliest_ns item.1) (λ item. is_recent earliest_ns item.1)
                  a.received a.sent,
            )),
  )

  poll_files-recounts :
      (x y : ℕ) (files : List File) (a : AuditState)
      → Recounted x y a
      → version_at group_of
          (expected_recipients run_nodes mesh)
          (f, r)
          (poll_files run_nodes mesh f r files a).versions
        ≡ (
          sent_kept run_nodes mesh f r (poll_files run_nodes mesh f r files a)
              + (forgotten run_nodes mesh f r (sent_kept run_nodes mesh f r) files a + x),
          received_kept run_nodes mesh f r (poll_files run_nodes mesh f r files a)
              + (forgotten run_nodes mesh f r (received_kept run_nodes mesh f r) files a + y),
        )
  unfolding poll_audit_events
  poll_files-recounts x y [] a h = h.1 ∙ pair-eq (omega arith) (omega arith)
  poll_files-recounts x y (file ∷ files) a h =
      let b = read_lines run_nodes mesh f r file.lines a in
      let c = pruned run_nodes mesh f r file a in
      poll_files-recounts ((sent_kept run_nodes mesh f r b - sent_kept run_nodes mesh f r c) + x)
        ((received_kept run_nodes mesh f r b - received_kept run_nodes mesh f r c) + y) files c
        (prune-Recounted x y (file.now_ns - audit_keep_ns) b
          (poll_lines-Recounted x y file.lines a h))
      ∙ pair-eq (omega arith) (omega arith)

  -- When the nodes of a run are each named once and the mesh stays the same, then after any files, with
  -- sent and received events in any order and any of them repeated, the two counters of each flow are
  -- those of the events kept, together with those that the prunings let go of: how many sent events of
  -- its topic and source expect its recipient, and how many of these it received.
  pub poll_audit_events-recounts :
      (files : List File)
      → version_at group_of
          (expected_recipients run_nodes mesh)
          (f, r)
          (poll_files run_nodes mesh f r files no_events).versions
        ≡ (
          sent_kept run_nodes mesh f r (poll_files run_nodes mesh f r files no_events)
              + forgotten run_nodes mesh f r (sent_kept run_nodes mesh f r) files no_events,
          received_kept run_nodes mesh f r (poll_files run_nodes mesh f r files no_events)
              + forgotten run_nodes mesh f r (received_kept run_nodes mesh f r) files no_events,
        )
  poll_audit_events-recounts files =
      poll_files-recounts 0 0 files no_events (tt, refl) ∙ pair-eq (omega arith) (omega arith)
