-- ===== src/Dashboard/Bridge.antt =====
-- gui/mesh_dashboard/server/mesh_bridge.py: the state that the dashboard's server keeps.
pub mod Counts
pub mod Names
pub mod Mesh
pub mod Recipients
pub mod Poll
pub mod Rows
pub mod Missions
