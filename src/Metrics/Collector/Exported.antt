-- ===== src/Metrics/Collector/Exported.antt =====
-- What is exported where a source of the metrics fails (slurmweb/metrics/collector.py).
use slurm_web.Base.{Bool, false, Option, none, some}
use slurm_web.Py.Error.{Exn}
use slurm_web.Metrics.Collector.{is_logged}

-- Is the outcome one of the exceptions of the client or of the cache?
abbrev pub ends_logged : Option Exn → Bool
ends_logged none = false
ends_logged (some e) = is_logged e
