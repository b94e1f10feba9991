-- ===== src/Harness/MeshControl/Ignored.antt =====
-- The samples that the loop of platform_mesh_control.py passes over, and the errors it only prints.
use act_sim_scope_infra.Common.{
  ℕ, ◌≡◌, refl, String, List, [], ◌∷◌, Bool, false, ◌&&◌, ◌||◌, str_eq, keep, arith, inl, inr,
  Bool-cases, sym, ◌==◌, Option, none, some,
}
use act_sim_scope_infra.Harness.Reporting.{
  Reporting, is_active, is_terminal, observe, request, or_same, status_init, status_mission,
  status_debug,
}
use act_sim_scope_infra.Harness.MeshControl.{
  Control, TeamSample, MissionSample, ModeSample, Wakeup, parse_mode, request_parsed, take_team,
  take_teams, take_mission, take_missions, take_mode, take_modes, report_samples, wake,
}

abbrev pub is_mode : Option ℕ → Bool
is_mode none = false
is_mode (some value) = value == status_init || value == status_mission || value == status_debug

module _ (node : String) where
  abbrev pub is_team_for : TeamSample → Bool
  is_team_for s = s.valid && str_eq s.platform_node node

  abbrev pub is_mission_for : MissionSample → Bool
  is_mission_for s =
      s.valid && str_eq s.source node && (is_active s.mission_phase || is_terminal s.mission_phase)

  abbrev pub is_mode_for : ModeSample → Bool
  is_mode_for s = s.valid && str_eq s.platform_node node && is_mode (parse_mode s.resolution_mode)

  abbrev pub usable : Wakeup → Wakeup
  usable w = record w {
    teams = keep is_team_for w.teams;
    missions = keep is_mission_for w.missions;
    modes = keep is_mode_for w.modes;
  }

request_parsed-ignored :
    (m : Option ℕ) (r : Reporting) → is_mode m ≡ false → or_same (request_parsed m r) r ≡ r
unfolding request_parsed request
request_parsed-ignored none r h = refl
request_parsed-ignored (some value) r h = rw h refl

module _ (node router_name : String) where
  take_team-ignored :
      (s : TeamSample) (c : Control)
      → is_team_for node s ≡ false
      → take_team node router_name s c ≡ c
  unfolding take_team
  take_team-ignored s c h = elim (Bool-cases s.valid) [
    | inl a ↦ elim (Bool-cases (str_eq s.platform_node node)) [
      | inl b ↦ absurd (ground (arith, a, b, h))
      | inr b ↦ rw (a, b) refl
    ]
    | inr a ↦ rw a refl
  ]

  take_teams-keep :
      (ss : List TeamSample) (c : Control)
      → take_teams node router_name ss c
        ≡ take_teams node router_name (keep (is_team_for node) ss) c
  unfolding take_teams
  take_teams-keep [] c = refl
  take_teams-keep (s ∷ ss) c = elim (Bool-cases (is_team_for node s)) [
    | inl b ↦ rw b (take_teams-keep ss (take_team node router_name s c))
    | inr b ↦ rw (b, take_team-ignored s c b) (take_teams-keep ss c)
  ]

  take_mission-ignored :
      (s : MissionSample) (r : Reporting)
      → is_mission_for node s ≡ false
      → take_mission node router_name s r ≡ r
  unfolding take_mission observe
  take_mission-ignored s r h = elim (Bool-cases (s.valid && str_eq s.source node)) [
    | inl a ↦ elim (Bool-cases (is_active s.mission_phase || is_terminal s.mission_phase)) [
      | inl b ↦ absurd (ground (arith, a, b, h))
      | inr b ↦ rw (a, b) refl
    ]
    | inr a ↦ rw a refl
  ]

  take_missions-keep :
      (ss : List MissionSample) (r : Reporting)
      → take_missions node router_name ss r
        ≡ take_missions node router_name (keep (is_mission_for node) ss) r
  unfolding take_missions
  take_missions-keep [] r = refl
  take_missions-keep (s ∷ ss) r = elim (Bool-cases (is_mission_for node s)) [
    | inl b ↦ rw b (take_missions-keep ss (take_mission node router_name s r))
    | inr b ↦ rw (b, take_mission-ignored s r b) (take_missions-keep ss r)
  ]

  take_mode-ignored :
      (s : ModeSample) (r : Reporting)
      → is_mode_for node s ≡ false
      → take_mode node router_name s r ≡ r
  unfolding take_mode
  take_mode-ignored s r h = elim (Bool-cases (s.valid && str_eq s.platform_node node)) [
    | inl a ↦ elim (Bool-cases (is_mode (parse_mode s.resolution_mode))) [
      | inl b ↦ absurd (ground (arith, a, b, h))
      | inr b ↦ rw a (request_parsed-ignored (parse_mode s.resolution_mode) r b)
    ]
    | inr a ↦ rw a refl
  ]

  take_modes-keep :
      (ss : List ModeSample) (r : Reporting)
      → take_modes node router_name ss r
        ≡ take_modes node router_name (keep (is_mode_for node) ss) r
  unfolding take_modes
  take_modes-keep [] r = refl
  take_modes-keep (s ∷ ss) r = elim (Bool-cases (is_mode_for node s)) [
    | inl b ↦ rw b (take_modes-keep ss (take_mode node router_name s r))
    | inr b ↦ rw (b, take_mode-ignored s r b) (take_modes-keep ss r)
  ]

  -- One pass of the loop does the same when the samples are left out that are invalid, meant for another
  -- platform, or raise: those with a phase or a status mode that is not known.
  pub wake-usable :
      (w : Wakeup) (c : Control)
      → wake node router_name w c ≡ wake node router_name (usable node w) c
  unfolding wake report_samples
  wake-usable w c =
      let t = take_teams node router_name w.teams c in
      rw
        (
          sym (take_teams-keep w.teams c),
          sym (take_missions-keep w.missions t.reporting),
          sym (take_modes-keep w.modes (take_missions node router_name w.missions t.reporting)),
        )
        refl
