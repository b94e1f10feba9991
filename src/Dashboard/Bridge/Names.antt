-- ===== src/Dashboard/Bridge/Names.antt =====
-- How mesh_bridge.py reads a node's name in the name of its router.
use Prim.Native.Char.{code}
use Prim.Native.String.{[], ◌∷◌}
use act_sim_scope_infra.Common.{String, ◌==◌, if◌then◌else◌}

-- `router.split("/", 1)[0]`
unfoldable pub router_node : String → String
router_node [] = []
router_node (c ∷ s) = let rest = router_node s in if code c == 47 then [] else c ∷ rest
