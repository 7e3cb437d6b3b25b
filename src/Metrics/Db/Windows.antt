-- ===== src/Metrics/Db/Windows.antt =====
-- The windows of the range queries (slurmweb/metrics/db.py).
