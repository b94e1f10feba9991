-- ===== src/Harness/Topology.antt =====
-- `compile_topology` of harness_v2/scripts/compile_mesh_topology.py. A node is taken with its fields
-- read: `none` stands for a field that is missing or of another type. Every error is `none`.
pub mod Accepted
mod Tests
use act_sim_scope_infra.Common.{
  ℕ, ◌+◌, ◌*◌, ◌≤◌, ◌≡◌, ◌↔◌, refl, ap, sym, ◌∙◌, List, [], ◌∷◌, Bool, true, false, not, ◌&&◌, ◌||◌,
  Option, none, some, some-injective, ltb, leb, ◌==◌, if◌then◌else◌, Key, nat_key, list_key,
  pair_key, any, keep, All, arith, inl, inr, Bool-cases, length, subst, ==_iff, leb→le,
}
use act_sim_scope_infra.Dashboard.Json.{◌>>=◌, ◌>>◌, require}
use act_sim_scope_infra.Wire.Capture.Repair.{Ip}

pub data Role : Type 0 where
  control platform : Role

abbrev pub is_control : Role → Bool
is_control control = true
is_control platform = false

abbrev pub role_same : Role → Role → Bool
role_same r s = if is_control r then is_control s else not (is_control s)

pub role_same_iff : (r s : Role) → (role_same r s ≡ true) ↔ (r ≡ s)
role_same_iff control control = ground arith
role_same_iff control platform = ground arith
role_same_iff platform control = ground arith
role_same_iff platform platform = ground arith

instance abbrev pub role_key : Key Role
role_key = record { same = role_same; same_iff = role_same_iff }

-- What `NODE_ID` matches: the role, and the decimal digits of the number.
abbrev pub NodeId : Type 0
NodeId = Role × List ℕ

-- `int(match.group(2))`, with the value of the digits before
abbrev pub number_from : ℕ → List ℕ → ℕ
number_from n [] = n
number_from n (d ∷ ds) = number_from (10 * n + d) ds

abbrev pub numeric_id : NodeId → ℕ
numeric_id id = number_from 0 id.1

pub record Emane : Type 0 where
  pub nem_id : Option ℕ
  pub ip : Option Ip
  pub control_ip : Option Ip

pub record Node : Type 0 where
  pub id : Option NodeId
  pub role : Option Role
  pub lan_domain : Option ℕ
  pub emane : Option Emane

pub record Compiled : Type 0 where
  pub identifier : NodeId
  pub lan_domain : ℕ
  pub nem_id : ℕ
  pub rf_ip : Ip
  pub control_ip : Ip

-- Whether a field's value is in the set of those of the nodes before.
abbrev pub taken {ℓ} : {K : Type ℓ} → ⦃e : Key K⦄ → (Compiled → K) → K → List Compiled → Bool
taken ⦃e⦄ f k = any (λ c. e.same (f c) k)

-- One round of the loop, behind the nodes `before`.
pub compile_node : List Compiled → Node → Option Compiled
compile_node before node = do
  identifier ← node.id
  role ← node.role
  require (role_same identifier.0 role)
  require (not (taken (λ c. c.identifier) identifier before))
  require (is_control role || (leb 30 (numeric_id identifier) && leb (numeric_id identifier) 99))
  lan_domain ← node.lan_domain
  require (lan_domain == numeric_id identifier && leb lan_domain 232)
  emane ← node.emane
  nem_id ← emane.nem_id
  require (leb 1 nem_id && not (taken (λ c. c.nem_id) nem_id before))
  rf_ip ← emane.ip
  control_ip ← emane.control_ip
  require (not (taken (λ c. c.rf_ip) rf_ip before || taken (λ c. c.control_ip) control_ip before))
  some (record {
    identifier = identifier;
    lan_domain = lan_domain;
    nem_id = nem_id;
    rf_ip = rf_ip;
    control_ip = control_ip;
  })

-- The loop over the nodes.
pub compile_nodes : List Compiled → List Node → Option (List Compiled)
unfolding compile_node
compile_nodes before [] = some []
compile_nodes before (node ∷ nodes) = do
  c ← compile_node before node
  cs ← compile_nodes (c ∷ before) nodes
  some (c ∷ cs)

abbrev pub controls : List Compiled → List Compiled
controls = keep (λ c. is_control c.identifier.0)

-- `control_nodes == ["control_20"]`
abbrev pub is_control_20 : List Compiled → Bool
is_control_20 [] = false
is_control_20 (c ∷ []) = pair_key.same c.identifier (control, 2 ∷ 0 ∷ [])
is_control_20 (c ∷ d ∷ cs) = false

-- `compile_topology`, of the schema's version and the list of nodes
pub compile_topology : Option ℕ → List Node → Option (List Compiled)
unfolding compile_nodes
compile_topology version nodes = do
  v ← version
  require (v == 1 && not (length nodes == 0))
  compiled ← compile_nodes [] nodes
  require (is_control_20 (controls compiled))
  require (any (λ c. not (is_control c.identifier.0)) compiled)
  some compiled
