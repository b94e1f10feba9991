-- ===== src/Dashboard.antt =====
-- gui/mesh_dashboard/server: what the dashboard makes of the observations of the nodes.
pub mod Json
pub mod WireDelivery
pub mod DeliveryConfig
pub mod Metrics
pub mod Bridge
