-- ===== src/Harness/Topology/Accepted.antt =====
-- The topologies that `compile_topology` accepts.
use act_sim_scope_infra.Common.{
  ℕ, ◌≤◌, ◌≡◌, sym, List, [], ◌∷◌, Bool, true, false, not, ◌&&◌, ◌||◌, Option, some, leb, ◌==◌, Key,
  nat_key, list_key, pair_key, any, All, arith, length, subst, ==_iff, leb→le,
}
use act_sim_scope_infra.Dashboard.Json.{Gives, Gives-bind, Gives-require}
use act_sim_scope_infra.Harness.Topology.{
  numeric_id, Node, Compiled, taken, compile_node, compile_nodes, controls, is_control_20,
  compile_topology, is_control, role_same, role_same_iff, role_key,
}

-- A node that is well formed by itself.
pub record IsWellFormed (c : Compiled) : Type 0 where
  pub lan_domain : c.lan_domain ≡ numeric_id c.identifier
  pub in_range : c.lan_domain ≤ 232
  pub platform_id :
      (is_control c.identifier.0 || (leb 30 c.lan_domain && leb c.lan_domain 99)) ≡ true
  pub nem_id : 1 ≤ c.nem_id

-- No value of a field stands twice, neither among the nodes nor in those before.
abbrev pub Distinct {ℓ} :
    {K : Type ℓ} → ⦃e : Key K⦄ → (Compiled → K) → List Compiled → List Compiled → Type 0
Distinct ⦃e⦄ f before [] = Unit
Distinct ⦃e⦄ f before (c ∷ cs) = (taken f (f c) before ≡ false) × Distinct f (c ∷ before) cs

-- What the loop makes of the nodes.
pub record IsMesh (before cs : List Compiled) : Type 0 where
  pub well_formed : All IsWellFormed cs
  pub identifiers : Distinct (λ c. c.identifier) before cs
  pub nem_ids : Distinct (λ c. c.nem_id) before cs
  pub rf_ips : Distinct (λ c. c.rf_ip) before cs
  pub control_ips : Distinct (λ c. c.control_ip) before cs

both : (b c : Bool) → (b && c) ≡ true → (b ≡ true) × (c ≡ true)
both b c h = ground (arith, h)

neither : (b c : Bool) → not (b || c) ≡ true → (b ≡ false) × (c ≡ false)
neither b c h = ground (arith, h)

negated : (b : Bool) → not b ≡ true → b ≡ false
negated b h = ground (arith, h)

-- What a node is, and that its fields are new.
record IsNew (before : List Compiled) (c : Compiled) : Type 0 where
  well_formed : IsWellFormed c
  identifier : taken (λ d. d.identifier) c.identifier before ≡ false
  nem_id : taken (λ d. d.nem_id) c.nem_id before ≡ false
  rf_ip : taken (λ d. d.rf_ip) c.rf_ip before ≡ false
  control_ip : taken (λ d. d.control_ip) c.control_ip before ≡ false

compile_node-IsNew :
    (before : List Compiled) (node : Node) → Gives (IsNew before) (compile_node before node)
unfolding compile_node
compile_node-IsNew before node = Gives-bind _ node.id _ (λ identifier e1.
    Gives-bind _ node.role _ (λ role e2. Gives-require _ (role_same identifier.0 role) _ (λ h1.
      Gives-require _ (not (taken (λ c. c.identifier) identifier before)) _ (λ h2.
        Gives-require _
          (is_control role || (leb 30 (numeric_id identifier) && leb (numeric_id identifier) 99)) _
          (λ h3. Gives-bind _ node.lan_domain _ (λ lan_domain e3.
            Gives-require _ (lan_domain == numeric_id identifier && leb lan_domain 232) _ (λ h4.
              Gives-bind _ node.emane _ (λ emane e4. Gives-bind _ emane.nem_id _ (λ nem_id e5.
                Gives-require _ (leb 1 nem_id && not (taken (λ c. c.nem_id) nem_id before)) _ (λ h5.
                  Gives-bind _ emane.ip _ (λ rf_ip e6.
                    Gives-bind _ emane.control_ip _ (λ control_ip e7.
                      Gives-require _
                        (not (
                          taken (λ c. c.rf_ip) rf_ip before
                          || taken (λ c. c.control_ip) control_ip before))
                        _
                        (λ h6.
                          let lan : lan_domain ≡ numeric_id identifier =
                            (==_iff lan_domain (numeric_id identifier)).0 (both _ _ h4).0 in
                          record {
                            well_formed = record {
                              lan_domain = lan;
                              in_range = leb→le lan_domain 232 (both _ _ h4).1;
                              platform_id =
                                  subst
                                    (λ r.
                                      (is_control r || (leb 30 lan_domain && leb lan_domain 99))
                                      ≡ true)
                                    (sym ((role_same_iff identifier.0 role).0 h1))
                                    (subst (λ n. (is_control role || (leb 30 n && leb n 99)) ≡ true)
                                      (sym lan) h3);
                              nem_id = leb→le 1 nem_id (both _ _ h5).0;
                            };
                            identifier = negated _ h2;
                            nem_id = negated _ (both _ _ h5).1;
                            rf_ip = (neither _ _ h6).0;
                            control_ip = (neither _ _ h6).1;
                          })))))))))))))

compile_nodes-IsMesh :
    (before : List Compiled) (nodes : List Node)
    → Gives (IsMesh before) (compile_nodes before nodes)
unfolding compile_nodes
compile_nodes-IsMesh before [] = record {
  well_formed = tt;
  identifiers = tt;
  nem_ids = tt;
  rf_ips = tt;
  control_ips = tt;
}
compile_nodes-IsMesh before (node ∷ nodes) = Gives-bind _ (compile_node before node) _ (λ c e.
    let n = subst (Gives (IsNew before)) e (compile_node-IsNew before node) in
    Gives-bind _ (compile_nodes (c ∷ before) nodes) _ (λ cs e1.
      let m = subst (Gives (IsMesh (c ∷ before))) e1 (compile_nodes-IsMesh (c ∷ before) nodes) in
      record {
        well_formed = (n.well_formed, m.well_formed);
        identifiers = (n.identifier, m.identifiers);
        nem_ids = (n.nem_id, m.nem_ids);
        rf_ips = (n.rf_ip, m.rf_ips);
        control_ips = (n.control_ip, m.control_ips);
      }))

-- The nodes of a topology that is accepted: each is well formed, no identifier, NEM ID or address stands
-- twice, the only control node is control_20, and there is a platform node.
pub record IsTopology (cs : List Compiled) : Type 0 where
  pub mesh : IsMesh [] cs
  pub control_20 : is_control_20 (controls cs) ≡ true
  pub platform : any (λ c. not (is_control c.identifier.0)) cs ≡ true

compile_topology-Gives :
    (version : Option ℕ) (nodes : List Node) → Gives IsTopology (compile_topology version nodes)
unfolding compile_topology
compile_topology-Gives version nodes = Gives-bind _ version _ (λ v e.
    Gives-require _ (v == 1 && not (length nodes == 0)) _ (λ h.
      Gives-bind _ (compile_nodes [] nodes) _ (λ cs e1.
        Gives-require _ (is_control_20 (controls cs)) _ (λ h1.
          Gives-require _ (any (λ c. not (is_control c.identifier.0)) cs) _ (λ h2. record {
            mesh = subst (Gives (IsMesh [])) e1 (compile_nodes-IsMesh [] nodes);
            control_20 = h1;
            platform = h2;
          })))))

-- When `compile_topology` accepts a topology, each node's LAN domain is the number in its identifier and
-- a DDS domain, platforms are numbered from 30 to 99, NEM IDs are positive, no identifier, NEM ID, RF
-- address or control address stands twice, the only control node is control_20, and there is at least
-- one platform.
pub compile_topology-IsTopology :
    (version : Option ℕ) (nodes : List Node) {cs : List Compiled}
    → compile_topology version nodes ≡ some cs
    → IsTopology cs
compile_topology-IsTopology version nodes e =
    subst (Gives IsTopology) e (compile_topology-Gives version nodes)
