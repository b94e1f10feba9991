-- ===== src/Traffic/Ports/Tests.antt =====
-- The port mapping at some ports.
use act_sim_scope_infra.Common.{◌≡◌, refl, [], ◌∷◌, some, none, false, any, ltb, arith}
use act_sim_scope_infra.Traffic.Accounting.{port_domain}
use act_sim_scope_infra.Traffic.Ports.{
  port_to_domain, unicast_port, port_to_domain-unicast_port, build_port_filter, port_range, matches,
  is_monitored, matches-build_port_filter,
}

no_port : port_to_domain 7405 ≡ none
unfolding port_to_domain
no_port = refl

port_to_domain-unicast_port_example :
    (port_to_domain (unicast_port 10 200 3) ≡ some 200)
    × (port_to_domain (unicast_port 11 200 3) ≡ some 200)
    × (port_to_domain (unicast_port 0 200 0) ≡ some 200)
    × (port_to_domain (unicast_port 1 200 0) ≡ some 200)
port_to_domain-unicast_port_example = port_to_domain-unicast_port 200 3 (omega arith)

matches-build_port_filter_example :
    (matches 57411 (port_range 200 ∷ port_range 201 ∷ [])
      ≡ is_monitored (port_domain (some 57411)) (200 ∷ 201 ∷ []))
    × (any (λ domain. ltb 232 domain) (200 ∷ 201 ∷ []) ≡ false)
unfolding build_port_filter
matches-build_port_filter_example =
    matches-build_port_filter (200 ∷ 201 ∷ []) 57411 refl (omega arith)
