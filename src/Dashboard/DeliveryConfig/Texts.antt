-- ===== src/Dashboard/DeliveryConfig/Texts.antt =====
-- The texts that delivery_config.py takes apart and joins.
use Prim.Native.Char.{code}
use Prim.Native.String.{[], ◌∷◌}
use act_sim_scope_infra.Common.{String, Bool, false, ◌||◌, ◌==◌, if◌then◌else◌}

abbrev pub has_dot : String → Bool
has_dot [] = false
has_dot (c ∷ s) = code c == 46 || has_dot s

-- `str(value).rsplit(".", 1)[-1]`
abbrev pub kind : String → String
kind [] = []
kind (c ∷ s) = let rest = kind s in if has_dot (c ∷ s) then rest else c ∷ s
