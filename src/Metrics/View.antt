-- ===== src/Metrics/View.antt =====
-- slurmweb/views/agent.py, metrics(): the metrics that a user may ask for.
pub mod Tables
pub mod Tests
use slurm_web.Base.{ℕ, String, Bool, List, Dict}
use slurm_web.Py.Value.{Value}
use slurm_web.Py.Error.{Exn, http_error, metrics_db_error}
use slurm_web.Py.Result.{Result, ok, raised, ◌>>=◌}
use slurm_web.Agent.Jobs.{User}
use slurm_web.Agent.Views.{metrics_guard}
use slurm_web.Metrics.Db.{Fetched, Point, request}

-- the handler of SlurmwebMetricsDBError
abbrev pub as_http : {A : Type 0} → Result A → Result A
as_http (raised (metrics_db_error err)) = raised (http_error 500 err)
as_http r = r

-- metrics, where `enabled` tells that there is a database, and with what Metrics.Db takes
unfoldable pub metrics :
    {V : Type 0}
    → (Value → Result V)
    → (String → Fetched)
    → String
    → (String → Bool)
    → ℕ
    → Bool
    → User
    → String
    → String
    → Result (Dict (List (Point V)))
metrics to_float fetch job is_attribute now enabled user metric range =
    metrics_guard enabled user metric >>= λ _.
    as_http (request to_float fetch job is_attribute now metric range)
