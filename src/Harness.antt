-- ===== src/Harness.antt =====
-- harness_v2/scripts: the container harness.
pub mod Topology
pub mod Reporting
pub mod MeshControl
pub mod Audit
pub mod Expectations
