-- ===== src/Agent.antt =====
-- internal/agent: the load generator's measurements.
pub mod SampleSet
pub mod Records
pub mod Measurements
pub mod Success
pub mod Workload
pub mod Backoff
pub mod Report
