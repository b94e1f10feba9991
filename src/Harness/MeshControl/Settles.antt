-- ===== src/Harness/MeshControl/Settles.antt =====
-- The clock of platform_mesh_control.py's loop: what its reporting object has seen when it ends.
use act_sim_scope_infra.Common.{
  ℕ, ◌+◌, ◌≤◌, ◌≡◌, refl, String, List, [], ◌∷◌, false, ◌&&◌, str_eq, arith, inl, inr, Bool-cases,
  sym, ap, ◌∙◌, ◌==◌, Option, none, some, All, ==_iff,
}
use act_sim_scope_infra.Harness.Reporting.{
  Reporting, or_same, report, report-until, observed, requested, final_status_ms, is_active, fresh,
  mode, status_init,
}
use act_sim_scope_infra.Harness.MeshControl.{
  Control, TeamSample, MissionSample, ModeSample, Wakeup, parse_mode, request_parsed, take_team,
  take_teams, take_mission, take_missions, take_mode, take_modes, report_samples, follow_mode, wake,
  run, start, change_team, leave_team, make_cmd, apply_mode, set_routes, make_route_cmd,
}

-- The observation of a mission is made by the time `t`.
abbrev IsSeenBy : ℕ → MissionSample → Type 0
IsSeenBy t s = s.now ≤ t

abbrev pub IsWokenBy : ℕ → Wakeup → Type 0
IsWokenBy t w = All (IsSeenBy t) w.missions

abbrev EndsBy : ℕ → Reporting → Type 0
EndsBy t r = r.final_status_until ≤ t + final_status_ms

request_parsed-until :
    (t : ℕ) (m : Option ℕ) (r : Reporting) → EndsBy t r → EndsBy t (or_same (request_parsed m r) r)
unfolding request_parsed report
request_parsed-until t none r l = l
request_parsed-until t (some value) r l = report-until t (requested value) r tt l

module _ (node router_name : String) where
  take_mission-until :
      (t : ℕ) (s : MissionSample) (r : Reporting)
      → IsSeenBy t s
      → EndsBy t r
      → EndsBy t (take_mission node router_name s r)
  unfolding take_mission report
  take_mission-until t s r h l = elim (Bool-cases (s.valid && str_eq s.source node)) [
    | inl b ↦ rw b (report-until t (observed s.mission_phase s.now s.mission_id) r h l)
    | inr b ↦ rw b l
  ]

  take_missions-until :
      (t : ℕ) (ss : List MissionSample) (r : Reporting)
      → All (IsSeenBy t) ss
      → EndsBy t r
      → EndsBy t (take_missions node router_name ss r)
  unfolding take_missions
  take_missions-until t [] r h l = l
  take_missions-until t (s ∷ ss) r (h, hs) l =
      take_missions-until t ss (take_mission node router_name s r) hs (take_mission-until t s r h l)

  take_modes-until :
      (t : ℕ) (ss : List ModeSample) (r : Reporting)
      → EndsBy t r
      → EndsBy t (take_modes node router_name ss r)
  unfolding take_modes take_mode
  take_modes-until t [] r l = l
  take_modes-until t (s ∷ ss) r l = elim (Bool-cases (s.valid && str_eq s.platform_node node)) [
    | inl b ↦
        rw (b, take_modes)
          (take_modes-until t ss (or_same (request_parsed (parse_mode s.resolution_mode) r) r)
            (request_parsed-until t (parse_mode s.resolution_mode) r l))
    | inr b ↦ rw (b, take_modes) (take_modes-until t ss r l)
  ]

  take_team-reporting :
      (s : TeamSample) (c : Control) → (take_team node router_name s c).reporting ≡ c.reporting
  unfolding take_team change_team leave_team make_cmd
  take_team-reporting s c = ground arith

  take_teams-reporting :
      (ss : List TeamSample) (c : Control)
      → (take_teams node router_name ss c).reporting ≡ c.reporting
  unfolding take_teams
  take_teams-reporting [] c = refl
  take_teams-reporting (s ∷ ss) c =
      take_teams-reporting ss (take_team node router_name s c) ∙ take_team-reporting s c

  follow_mode-reporting :
      (value : ℕ) (c : Control) → (follow_mode node router_name value c).reporting ≡ c.reporting
  unfolding follow_mode apply_mode set_routes make_route_cmd
  follow_mode-reporting value c = ground arith

  follow_mode-mode :
      (value : ℕ) (c : Control) → (follow_mode node router_name value c).tracked_mode ≡ value
  unfolding follow_mode
  follow_mode-mode value c = elim (Bool-cases (value == c.tracked_mode)) [
    | inl b ↦ rw b (sym ((==_iff value c.tracked_mode).0 b))
    | inr b ↦ rw b refl
  ]

  wake-reporting :
      (w : Wakeup) (c : Control)
      → (wake node router_name w c).reporting ≡ report_samples node router_name w c.reporting
  unfolding wake
  wake-reporting w c =
      let t = take_teams node router_name w.teams c in
      let r = report_samples node router_name w t.reporting in
      let m = mode w.now r in
      let held = follow_mode-reporting m (record t { reporting = r }) in
      held ∙ ap (report_samples node router_name w) (take_teams-reporting w.teams c)

  wake-until :
      (t : ℕ) (w : Wakeup) (c : Control)
      → IsWokenBy t w
      → EndsBy t c.reporting
      → EndsBy t (wake node router_name w c).reporting
  unfolding report_samples
  wake-until t w c h l = rw (wake-reporting w c) (
      take_modes-until t w.modes (take_missions node router_name w.missions c.reporting)
        (take_missions-until t w.missions c.reporting h l))

  run-until :
      (t : ℕ) (ws : List Wakeup) (c : Control)
      → All (IsWokenBy t) ws
      → EndsBy t c.reporting
      → EndsBy t (run node router_name ws c).reporting
  unfolding run
  run-until t [] c h l = l
  run-until t (w ∷ ws) c (h, hs) l =
      run-until t ws (wake node router_name w c) hs (wake-until t w c h l)

  wake-mode :
      (w : Wakeup) (c : Control)
      → (wake node router_name w c).tracked_mode ≡ mode w.now (wake node router_name w c).reporting
  unfolding wake
  wake-mode w c =
      let t = take_teams node router_name w.teams c in
      let r = report_samples node router_name w t.reporting in
      let m = mode w.now r in
      let held = follow_mode-reporting m (record t { reporting = r }) in
      follow_mode-mode m (record t { reporting = r }) ∙ ap (mode w.now) (sym held)

  -- When every mission sample was taken by the time t, the first pass of the loop that ends 3 s after t
  -- or later puts the platform in INIT, if the last phase is not active and no debug is asked for.
  pub run-settles :
      (t : ℕ) (ws : List Wakeup) (w : Wakeup)
      → All (IsWokenBy t) ws
      → IsWokenBy t w
      → t + final_status_ms ≤ w.now
      → is_active (wake node router_name w (run node router_name ws start)).reporting.phase ≡ false
      → (wake node router_name w (run node router_name ws start)).reporting.debug ≡ false
      → (wake node router_name w (run node router_name ws start)).tracked_mode ≡ status_init
  unfolding mode
  run-settles t ws w hs h l a d =
      let c = run node router_name ws start in
      let bound =
        wake-until t w c h
          (run-until t ws start hs (unfold start in unfold fresh in omega arith)) in
      wake-mode w c ∙ rw (d, a) (ground (arith, bound, l))
