-- ===== src/Harness/Topology/Tests.antt =====
-- `compile_topology` on small topologies.
use act_sim_scope_infra.Common.{ℕ, ◌≡◌, refl, List, [], ◌∷◌, some, none}
use act_sim_scope_infra.Harness.Topology.{Role, Node, Compiled, control, platform, compile_topology}
use act_sim_scope_infra.Harness.Topology.Accepted.{IsTopology, compile_topology-IsTopology}

abbrev node : Role → List ℕ → ℕ → ℕ → Node
node role digits n nem = record {
  id = some (role, digits);
  role = some role;
  lan_domain = some n;
  emane = some (record {
    nem_id = some nem;
    ip = some (10 ∷ 100 ∷ 0 ∷ nem ∷ []);
    control_ip = some (10 ∷ 99 ∷ 0 ∷ nem ∷ []);
  });
}

abbrev compiled : Role → List ℕ → ℕ → ℕ → Compiled
compiled role digits n nem = record {
  identifier = (role, digits);
  lan_domain = n;
  nem_id = nem;
  rf_ip = 10 ∷ 100 ∷ 0 ∷ nem ∷ [];
  control_ip = 10 ∷ 99 ∷ 0 ∷ nem ∷ [];
}

-- The same NEM ID twice.
duplicate :
    compile_topology
      (some 1)
      (node control (2 ∷ 0 ∷ []) 20 1 ∷ node platform (3 ∷ 0 ∷ []) 30 1 ∷ [])
    ≡ none
unfolding compile_topology
duplicate = refl

-- A leading zero makes another identifier of the same number, and so a second node of the LAN domain.
leading_zero :
    compile_topology (some 1) (
      node control (2 ∷ 0 ∷ []) 20 1
      ∷ node platform (3 ∷ 0 ∷ []) 30 2
      ∷ node platform (0 ∷ 3 ∷ 0 ∷ []) 30 3
      ∷ [])
    ≡ some (
        compiled control (2 ∷ 0 ∷ []) 20 1
        ∷ compiled platform (3 ∷ 0 ∷ []) 30 2
        ∷ compiled platform (0 ∷ 3 ∷ 0 ∷ []) 30 3
        ∷ [])
unfolding compile_topology
leading_zero = refl

compile_topology-IsTopology_example :
    IsTopology (compiled control (2 ∷ 0 ∷ []) 20 1 ∷ compiled platform (3 ∷ 0 ∷ []) 30 2 ∷ [])
unfolding compile_topology
compile_topology-IsTopology_example =
    compile_topology-IsTopology (some 1)
      (node control (2 ∷ 0 ∷ []) 20 1 ∷ node platform (3 ∷ 0 ∷ []) 30 2 ∷ []) refl
