-- ===== src/Dashboard/Bridge/Rows/Totals.antt =====
-- The numbers of a row of the delivery table of mesh_bridge.py, added up.
use act_sim_scope_infra.Common.{string_key, nat_key, pair_key}
