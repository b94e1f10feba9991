-- ===== src/Harness/MeshControl/Routes.antt =====
-- The route commands of platform_mesh_control.py, and the numbers and the targets of all commands.
use act_sim_scope_infra.Common.{
  ℕ, ◌≡◌, refl, String, List, [], ◌∷◌, Bool, true, false, not, if◌then◌else◌, str_eq, arith, inl,
  inr, Bool-cases, ap, zero, suc, map, ◌≤◌, ◌==◌, Option, none, some, ◌⊎◌,
}
use act_sim_scope_infra.Harness.Reporting.{status_init, status_mission, status_debug}
use act_sim_scope_infra.Harness.MeshControl.{
  Command, Control, Wakeup, start, run, change_team, leave_team, make_cmd, apply_mode, set_routes,
  make_route_cmd, enable_route, disable_route, Kind, run-keeps, CommandId, team_ctrl,
  add_participant_partition, remove_participant_partition, status_mode,
}

abbrev route_change : Kind → Option Bool
route_change enable_route = some true
route_change disable_route = some false
route_change kind = none

abbrev route_after : Option Bool → Bool → Option Bool → Option Bool
route_after none named before = before
route_after (some change) named before = if named then some change else before

-- What the last command on the route left it, `none` when there was none.
unfoldable pub route_state : String → List Command → Option Bool
route_state route [] = none
route_state route (c ∷ cs) =
    let before = route_state route cs in
    route_after (route_change c.kind) (str_eq route c.route_name) before

-- The three routes are untouched, or as the mode wants them.
abbrev pub Follow : ℕ → List Command → Type 0
Follow value cs =
    ((value ≡ status_init)
      × (route_state "platform_init_status" cs ≡ none)
      × (route_state "platform_detail_status" cs ≡ none)
      × (route_state "platform_debug_status" cs ≡ none))
    ⊎ ((route_state "platform_init_status" cs ≡ some true)
        × (route_state "platform_detail_status" cs ≡ some (not (value == status_init)))
        × (route_state "platform_debug_status" cs ≡ some (value == status_debug)))

abbrev IsFollowed : Control → Type 0
IsFollowed c = Follow c.tracked_mode c.written

module _ (node router_name : String) where
  -- A command on a partition changes no route.
  change_team-routes :
      (route next : String) (c : Control)
      → route_state route (change_team node router_name next c).written
        ≡ route_state route c.written
  unfolding change_team leave_team make_cmd route_state
  change_team-routes route next c = elim (Bool-cases (str_eq c.tracked_team "")) [
    | inl a ↦ elim (Bool-cases (str_eq next "")) [ inl b ↦ rw (a, b) refl | inr b ↦ rw (a, b) refl ]
    | inr a ↦ elim (Bool-cases (str_eq next "")) [ inl b ↦ rw (a, b) refl | inr b ↦ rw (a, b) refl ]
  ]

  change_team-mode :
      (next : String) (c : Control)
      → (change_team node router_name next c).tracked_mode ≡ c.tracked_mode
  unfolding change_team leave_team make_cmd
  change_team-mode next c = elim (Bool-cases (str_eq c.tracked_team "")) [
    | inl a ↦ elim (Bool-cases (str_eq next "")) [ inl b ↦ rw (a, b) refl | inr b ↦ rw (a, b) refl ]
    | inr a ↦ elim (Bool-cases (str_eq next "")) [ inl b ↦ rw (a, b) refl | inr b ↦ rw (a, b) refl ]
  ]

  change_team-IsFollowed :
      (next : String) (c : Control)
      → IsFollowed c
      → IsFollowed (change_team node router_name next c)
  change_team-IsFollowed next c h =
      rw
        (
          change_team-mode next c,
          change_team-routes "platform_init_status" next c,
          change_team-routes "platform_detail_status" next c,
          change_team-routes "platform_debug_status" next c,
        )
        h

  apply_mode-Follow :
      (value : ℕ) (c : Control)
      → value ≤ status_debug
      → Follow value (apply_mode node router_name value c).written
  unfolding apply_mode set_routes make_route_cmd route_state
  apply_mode-Follow value c l = elim (Bool-cases (value == status_init)) [
    | inl a ↦ rw a (inr (refl, refl, ap some (ground (arith, a))))
    | inr a ↦ elim (Bool-cases (value == status_mission)) [
      | inl b ↦ rw (a, b) (inr (refl, refl, ap some (ground (arith, b))))
      | inr b ↦ elim (Bool-cases (value == status_debug)) [
        | inl e ↦ rw (a, b, e) (inr (refl, refl, refl))
        | inr e ↦ absurd (ground (arith, a, b, e, l))
      ]
    ]
  ]

  -- However the loop has run, the commands written leave the routes as the tracked mode wants them: the
  -- primary route enabled, the detail route except in INIT, the debug route in DEBUG only; or none of
  -- the three has had a command yet, and the mode is INIT.
  pub run-Follow :
      (ws : List Wakeup)
      → Follow (run node router_name ws start).tracked_mode (run node router_name ws start).written
  unfolding start route_state
  run-Follow ws =
      run-keeps IsFollowed node router_name change_team-IsFollowed (λ r c h. h)
        (λ value c l h. apply_mode-Follow value c l) ws start (inl (refl, refl, refl, refl))

abbrev id_number : CommandId → ℕ
id_number (team_ctrl n) = n
id_number (status_mode n) = n

abbrev pub countdown : ℕ → List ℕ
countdown zero = []
countdown (suc n) = suc n ∷ countdown n

abbrev pub numbers : List Command → List ℕ
numbers cs = map (λ c. id_number c.command_id) cs

abbrev IsNumbered : Control → Type 0
IsNumbered c = numbers c.written ≡ countdown c.cmd_seq

module _ (node router_name : String) where
  make_route_cmd-IsNumbered :
      (kind : Kind) (route : String) (c : Control)
      → IsNumbered c
      → IsNumbered (make_route_cmd node router_name kind route c)
  unfolding make_route_cmd
  make_route_cmd-IsNumbered kind route c h = ap (λ ns. suc c.cmd_seq ∷ ns) h

  make_cmd-IsNumbered :
      (kind : Kind) (partition : String) (c : Control)
      → IsNumbered c
      → IsNumbered (make_cmd node router_name kind partition c)
  unfolding make_cmd
  make_cmd-IsNumbered kind partition c h = ap (λ ns. suc c.cmd_seq ∷ ns) h

  set_routes-IsNumbered :
      (detail debug : Kind) (c : Control)
      → IsNumbered c
      → IsNumbered (set_routes node router_name detail debug c)
  unfolding set_routes
  set_routes-IsNumbered detail debug c h =
      make_route_cmd-IsNumbered debug "platform_debug_status"
        (make_route_cmd node router_name detail "platform_detail_status" c)
        (make_route_cmd-IsNumbered detail "platform_detail_status" c h)

  apply_mode-IsNumbered :
      (value : ℕ) (c : Control)
      → value ≤ status_debug
      → IsNumbered c
      → IsNumbered (record (apply_mode node router_name value c) { tracked_mode = value })
  unfolding apply_mode
  apply_mode-IsNumbered value c l h =
      let primary = make_route_cmd-IsNumbered enable_route "platform_init_status" c h in
      elim (Bool-cases (value == status_init)) [
        | inl a ↦ rw a (
            set_routes-IsNumbered disable_route disable_route
              (make_route_cmd node router_name enable_route "platform_init_status" c) primary)
        | inr a ↦ elim (Bool-cases (value == status_mission)) [
          | inl b ↦
              rw (a, b)
                (set_routes-IsNumbered enable_route disable_route
                  (make_route_cmd node router_name enable_route "platform_init_status" c) primary)
          | inr b ↦ elim (Bool-cases (value == status_debug)) [
            | inl e ↦
                rw (a, b, e)
                  (set_routes-IsNumbered enable_route enable_route
                    (make_route_cmd node router_name enable_route "platform_init_status" c) primary)
            | inr e ↦ rw (a, b, e) primary
          ]
        ]
      ]

  leave-IsNumbered : (c : Control) → IsNumbered c → IsNumbered (leave_team node router_name c)
  unfolding leave_team
  leave-IsNumbered c h = elim (Bool-cases (str_eq c.tracked_team "")) [
    | inl a ↦ rw a h
    | inr a ↦ rw a (make_cmd-IsNumbered remove_participant_partition c.tracked_team c h)
  ]

  change_team-IsNumbered :
      (next : String) (c : Control)
      → IsNumbered c
      → IsNumbered (change_team node router_name next c)
  unfolding change_team
  change_team-IsNumbered next c h = elim (Bool-cases (str_eq next "")) [
    | inl b ↦ rw b (leave-IsNumbered c h)
    | inr b ↦ rw b (
        make_cmd-IsNumbered add_participant_partition next (leave_team node router_name c)
          (leave-IsNumbered c h))
  ]

  -- However the loop has run, the numbers in the identifiers of the commands written are those from 1 to
  -- the counter, each once, counted over both kinds of command and in their order.
  pub run-numbers :
      (ws : List Wakeup)
      → numbers (run node router_name ws start).written
        ≡ countdown (run node router_name ws start).cmd_seq
  unfolding start
  run-numbers ws =
      run-keeps IsNumbered node router_name change_team-IsNumbered (λ r c h. h)
        apply_mode-IsNumbered ws start refl
