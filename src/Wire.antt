-- ===== src/Wire.antt =====
-- debug/scripts/rtps_delivery.py: passive RTPS sample observations on a node's WAN interface.
pub mod SequenceRanges
pub mod Bytes
pub mod Submessages
pub mod Endpoints
pub mod Capture
