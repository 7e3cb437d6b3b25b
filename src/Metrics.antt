-- ===== src/Metrics.antt =====
-- slurmweb/metrics: the metrics that the agent exports, and those that it asks a database for.
pub mod Db
pub mod Collector
pub mod View
