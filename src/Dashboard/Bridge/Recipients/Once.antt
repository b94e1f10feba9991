-- ===== src/Dashboard/Bridge/Recipients/Once.antt =====
-- `_expected_recipients` of mesh_bridge.py names no recipient twice.
use act_sim_scope_infra.Common.{
  ◌≡◌, refl, String, List, [], ◌∷◌, Bool, true, false, Option, none, some, if◌then◌else◌, str_eq,
  string_key, nat_key, pair_key, keep, any, Key, arith, inl, inr, Bool-cases, not, ◌&&◌, ◌||◌,
}
use act_sim_scope_infra.Dashboard.Bridge.Mesh.{
  Mesh, is_platform, team_names_for_node, platform_topic_expected,
}
use act_sim_scope_infra.Dashboard.Bridge.Recipients.{
  AuditEvent, expected_recipients, team_recipients, health_recipients, location_recipients,
  destination_of, share_team, is_control_recipient_topic,
}
use act_sim_scope_infra.Dashboard.Bridge.Counts.Recount.{NoRepeat}

module _ {R : Type 0} ⦃er : Key R⦄ (p : R → Bool) where
  keep-any :
      (r : R) (rs : List R)
      → any (λ s. er.same s r) rs ≡ false
      → any (λ s. er.same s r) (keep p rs) ≡ false
  keep-any r [] h = refl
  keep-any r (s ∷ rs) h = ground (arith, h, keep-any r rs)

  keep-NoRepeat : (rs : List R) → NoRepeat rs → NoRepeat (keep p rs)
  keep-NoRepeat [] u = tt
  keep-NoRepeat (r ∷ rs) (n, u) = elim (Bool-cases (p r)) [
    | inl b ↦ rw b (keep-any r rs n, keep-NoRepeat rs u)
    | inr b ↦ rw b (keep-NoRepeat rs u)
  ]

if-NoRepeat :
    (b : Bool) (xs ys : List String) → NoRepeat xs → NoRepeat ys → NoRepeat (if b then xs else ys)
if-NoRepeat true xs ys h l = h
if-NoRepeat false xs ys h l = l

destination_of-NoRepeat : (d : Option String) → NoRepeat (destination_of d)
destination_of-NoRepeat none = tt
destination_of-NoRepeat (some d) = if-NoRepeat (str_eq d "") [] (d ∷ []) tt (refl, tt)

module _ (run_nodes : String → List String) (mesh : Mesh)
    (unique : (run_id : String) → NoRepeat (run_nodes run_id)) where
  pub expected_recipients-NoRepeat :
      (e : AuditEvent) → NoRepeat (expected_recipients run_nodes mesh e)
  unfolding expected_recipients team_recipients health_recipients location_recipients
  expected_recipients-NoRepeat e =
      let nodes = run_nodes e.run_id in
      let source = e.source_node in
      let control : NoRepeat {R = String} ⦃er = string_key⦄ ("Control_20" ∷ []) = (refl, tt) in
      let off : NoRepeat {R = String} ⦃er = string_key⦄ [] = tt in
      let teams = team_names_for_node mesh source in
      if-NoRepeat (str_eq e.topic "ControlCommand") (destination_of e.destination) _
        (destination_of-NoRepeat e.destination)
        (if-NoRepeat (str_eq e.topic "PlatformData" && is_platform source) _ _
          (keep-NoRepeat
            (λ node.
              is_platform node
              && not (str_eq node source)
              && share_team teams (team_names_for_node mesh node))
            nodes (unique e.run_id))
          (if-NoRepeat (str_eq e.topic "RouterHealth") _ _
            (if-NoRepeat (str_eq source "Control_20") _ _
              (keep-NoRepeat is_platform nodes (unique e.run_id))
              (if-NoRepeat (is_platform source) _ _
                (if-NoRepeat (any (str_eq "Control_20") nodes) _ _ control off) off))
            (if-NoRepeat (str_eq e.topic "PlatformInitStatus" && is_platform source) _ _
              (keep-NoRepeat
                (λ node. str_eq node "Control_20" || is_platform node && not (str_eq node source))
                nodes (unique e.run_id))
              (if-NoRepeat (is_control_recipient_topic e.topic && is_platform source) _ _
                (if-NoRepeat (platform_topic_expected mesh source e.topic e.sent_at_ns) _ _ control
                  off)
                off))))
