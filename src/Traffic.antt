-- ===== src/Traffic.antt =====
-- debug/scripts/traffic_accounting.py and domain_traffic_monitor.py: the accounting of captured frames.
pub mod Counters
pub mod Accumulator
pub mod Classify
pub mod Accounting
pub mod Ports
pub mod Emane
