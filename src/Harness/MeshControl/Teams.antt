-- ===== src/Harness/MeshControl/Teams.antt =====
-- The partition commands of platform_mesh_control.py, read as the partitions they leave.
use act_sim_scope_infra.Common.{
  ℕ, ◌≡◌, refl, String, List, [], ◌∷◌, Bool, true, false, not, ◌&&◌, if◌then◌else◌, str_eq, eq_iff,
  arith, inl, inr, Bool-cases, ap, ◌∙◌, ◌≤◌, ◌==◌,
}
use act_sim_scope_infra.Harness.Reporting.{status_init, status_mission, status_debug, mode}
use act_sim_scope_infra.Harness.MeshControl.{
  Command, Control, TeamSample, Wakeup, report_samples, start, run, wake, take_teams, take_team,
  change_team, leave_team, make_cmd, apply_mode, set_routes, make_route_cmd, follow_mode,
  add_participant_partition, remove_participant_partition, Kind, run-keeps,
}

abbrev is_add : Kind → Bool
is_add add_participant_partition = true
is_add kind = false

abbrev is_partition : Kind → Bool
is_partition add_participant_partition = true
is_partition remove_participant_partition = true
is_partition kind = false

-- The last command on the partition is to add it.
unfoldable pub added : String → List Command → Bool
added team [] = false
added team (c ∷ cs) =
    let rest = added team cs in
    if is_partition c.kind && str_eq team c.partition_name then is_add c.kind else rest

abbrev pub IsTracked : String → Control → Type 0
IsTracked team c = added team c.written ≡ (not (str_eq team "") && str_eq team c.tracked_team)

-- The team named by the last valid sample that is addressed to this platform.
abbrev pub told : String → List TeamSample → String → String
told node [] before = before
told node (s ∷ ss) before =
    told node ss (if s.valid && str_eq s.platform_node node then s.team_name else before)

abbrev pub told_all : String → List Wakeup → String → String
told_all node [] before = before
told_all node (w ∷ ws) before = told_all node ws (told node w.teams before)

module _ (node router_name team : String) where
  change_team-IsTracked :
      (next : String) (c : Control)
      → IsTracked team c
      → IsTracked team (change_team node router_name next c)
  unfolding change_team leave_team make_cmd added
  change_team-IsTracked next c h = elim (Bool-cases (str_eq c.tracked_team "")) [
    | inl a ↦ elim (Bool-cases (str_eq next "")) [
      | inl b ↦
          rw (a, b)
            (ground (
              arith,
              h,
              eq_iff team next,
              eq_iff team c.tracked_team,
              eq_iff c.tracked_team "",
              eq_iff next "",
              eq_iff team "",
            ))
      | inr b ↦
          rw (a, b)
            (ground (
              arith,
              h,
              eq_iff team next,
              eq_iff team c.tracked_team,
              eq_iff c.tracked_team "",
              eq_iff next "",
              eq_iff team "",
            ))
    ]
    | inr a ↦ elim (Bool-cases (str_eq next "")) [
      | inl b ↦
          rw (a, b)
            (ground (
              arith,
              h,
              eq_iff team next,
              eq_iff team c.tracked_team,
              eq_iff c.tracked_team "",
              eq_iff next "",
              eq_iff team "",
            ))
      | inr b ↦
          rw (a, b)
            (ground (
              arith,
              h,
              eq_iff team next,
              eq_iff team c.tracked_team,
              eq_iff c.tracked_team "",
              eq_iff next "",
              eq_iff team "",
            ))
    ]
  ]

  apply_mode-IsTracked :
      (value : ℕ) (c : Control)
      → value ≤ status_debug
      → IsTracked team c
      → IsTracked team (record (apply_mode node router_name value c) { tracked_mode = value })
  unfolding apply_mode set_routes make_route_cmd added
  apply_mode-IsTracked value c l h = elim (Bool-cases (value == status_init)) [
    | inl b ↦ rw b h
    | inr b ↦ elim (Bool-cases (value == status_mission)) [
      | inl d ↦ rw (b, d) h
      | inr d ↦ elim (Bool-cases (value == status_debug)) [
        | inl e ↦ rw (b, d, e) h
        | inr e ↦ rw (b, d, e) h
      ]
    ]
  ]

  run-IsTracked : (ws : List Wakeup) → IsTracked team (run node router_name ws start)
  unfolding start added
  run-IsTracked ws =
      run-keeps (IsTracked team) node router_name change_team-IsTracked (λ r c h. h)
        apply_mode-IsTracked ws start (ground (arith, eq_iff team ""))

change_team-team :
    (node router_name next : String) (c : Control)
    → (change_team node router_name next c).tracked_team ≡ next
unfolding change_team
change_team-team node router_name next c = refl

take_team-told :
    (node router_name : String) (s : TeamSample) (c : Control)
    → (take_team node router_name s c).tracked_team
      ≡ (if s.valid && str_eq s.platform_node node then s.team_name else c.tracked_team)
unfolding take_team change_team leave_team
take_team-told node router_name s c = ground (arith, eq_iff s.team_name c.tracked_team)

take_teams-told :
    (node router_name : String) (ss : List TeamSample) (c : Control)
    → (take_teams node router_name ss c).tracked_team ≡ told node ss c.tracked_team
unfolding take_teams
take_teams-told node router_name [] c = refl
take_teams-told node router_name (s ∷ ss) c =
    take_teams-told node router_name ss (take_team node router_name s c)
    ∙ ap (told node ss) (take_team-told node router_name s c)

apply_mode-team :
    (node router_name : String) (value : ℕ) (c : Control)
    → (apply_mode node router_name value c).tracked_team ≡ c.tracked_team
unfolding apply_mode set_routes make_route_cmd
apply_mode-team node router_name value c = ground arith

follow_mode-team :
    (node router_name : String) (value : ℕ) (c : Control)
    → (follow_mode node router_name value c).tracked_team ≡ c.tracked_team
unfolding follow_mode
follow_mode-team node router_name value c = ground (arith, apply_mode-team node router_name value c)

run-told :
    (node router_name : String) (ws : List Wakeup) (c : Control)
    → (run node router_name ws c).tracked_team ≡ told_all node ws c.tracked_team
unfolding run wake
run-told node router_name [] c = refl
run-told node router_name (w ∷ ws) c =
    let t = take_teams node router_name w.teams c in
    let r = report_samples node router_name w t.reporting in
    run-told node router_name ws (wake node router_name w c)
    ∙ ap (told_all node ws) (
        follow_mode-team node router_name (mode w.now r) (record t { reporting = r })
        ∙ take_teams-told node router_name w.teams c)

-- However the loop has run, the last command on a team's partition is to add it exactly for the team,
-- if it has a name, that the last valid sample addressed to this platform named.
pub run-added :
    (node router_name team : String) (ws : List Wakeup)
    → added team (run node router_name ws start).written
      ≡ (not (str_eq team "") && str_eq team (told_all node ws ""))
unfolding start
run-added node router_name team ws =
    run-IsTracked node router_name team ws
    ∙ ap (λ t. not (str_eq team "") && str_eq team t) (run-told node router_name ws start)
