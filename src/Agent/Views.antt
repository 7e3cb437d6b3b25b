-- ===== src/Agent/Views.antt =====
-- slurmweb/views/agent.py: the views of the cluster's resources, of the cache, and who may see them.
pub mod Guards
pub mod Tests
use slurm_web.Base.{
  ℕ, zero, suc, ◌+◌, String, ◌≡◌, Bool, true, false, Option, none, some, List, [], ◌∷◌,
  if◌then◌else◌, ◌^^◌, ℤ, pos, ◌+ℤ◌, Dict, get,
}
use slurm_web.Py.Value.{Value, str, dict, field, end}
use slurm_web.Py.Error.{Exn, http_error}
use slurm_web.Py.Result.{Result, ok, raised, ◌>>=◌ as ◌>>>=◌}
use slurm_web.Py.Ops.{getitem, contains, iterate, as_int}
use slurm_web.Py.Exec.{Exec, lift, pure, raise, ◌>>=◌, ◌>>◌}
use slurm_web.Slurmrestd.Resources.{node_gres_extract_gpus}
use slurm_web.Cache
use slurm_web.Cache.{Redis}
use slurm_web.Agent.Api.{Api}
use slurm_web.Agent.Errors.{slurmrest}
use slurm_web.Agent.Jobs.{User}

-- The views that hand on what the client gives.
pub data View : Type 0 where
  nodes partitions qos reservations accounts associations : View
  node : String → View

-- the argument of rbac_action
pub action_of : View → String
action_of nodes = "nodes-view"
action_of (node name) = "nodes-view"
action_of partitions = "partitions-view"
action_of qos = "qos-view"
action_of reservations = "reservations-view"
action_of accounts = "accounts-view"
action_of associations = "associations-view"

-- The counters of stats().
pub record Stats : Type 0 where
  pub nodes : ℕ
  pub cores : ℤ
  pub memory : ℤ
  pub gpus : ℤ
  pub running : ℕ
  pub total : ℕ

-- the loop over the jobs: running, total
pub count_running : List Value → ℕ → ℕ → Result (ℕ × ℕ)
count_running [] running total = ok (running, total)
count_running (job ∷ jobs) running total = getitem job "job_state" >>>= λ states.
    contains "RUNNING" states >>>= λ runs.
    count_running jobs (if runs then running + 1 else running) (total + 1)

-- the loop over the nodes: nodes, cores, memory, GPU
pub count_resources : List Value → ℕ → ℤ → ℤ → ℤ → Result (ℕ × ℤ × ℤ × ℤ)
count_resources [] count cores memory gpus = ok (count, cores, memory, gpus)
count_resources (item ∷ rest) count cores memory gpus = getitem item "cpus" >>>= λ cpus.
    as_int cpus >>>= λ c. getitem item "real_memory" >>>= λ real. as_int real >>>= λ m.
    getitem item "gres" >>>= λ gres. node_gres_extract_gpus gres >>>= λ g.
    count_resources rest (count + 1) (cores +ℤ c) (memory +ℤ m) (gpus +ℤ g)

-- The decorator rbac_action of RFL lets a request pass or raises.
module _ {S : Type 0} (format : Value → String) (rbac_action : String → Result (Unit {0}))
    (api : Api S) where
  pub call_of : View → Exec S Value
  call_of nodes = api.nodes
  call_of (node name) = api.node name
  call_of partitions = api.partitions
  call_of qos = api.qos
  call_of reservations = api.reservations
  call_of accounts = api.accounts
  call_of associations = api.associations

  pub view : View → Exec S Value
  view v = do lift (rbac_action (action_of v)); slurmrest format (call_of v)

  -- ping()
  pub ping : Exec S (Value × Option String)
  ping = do (cluster, slurm, version) ← slurmrest format api.discover; pure (slurm, version)

  -- stats(), which calls jobs() of the client without the wrapper
  pub stats : Exec S Stats
  stats = do
    lift (rbac_action "stats-view")
    all_jobs ← api.jobs
    jobs ← lift (iterate all_jobs)
    (running, total) ← lift (count_running jobs 0 0)
    all_nodes ← slurmrest format api.nodes
    items ← lift (iterate all_nodes)
    (n, cores, memory, gpus) ← lift (count_resources items 0 (pos 0) (pos 0) (pos 0))
    pure (record {
      nodes = n;
      cores = cores;
      memory = memory;
      gpus = gpus;
      running = running;
      total = total;
    })

-- The cache is None where it is disabled.
module _ {W : Type 0} (rbac_action : String → Result (Unit {0})) (cache : Option (Redis W)) where
  abbrev service :
      Option (Redis W)
      → String
      → Exec W (Dict ℕ × Dict ℕ × ℕ × ℕ)
      → Exec W (Dict ℕ × Dict ℕ × ℕ × ℕ)
  service none error m = raise (http_error 501 error)
  service (some redis) error m = m

  abbrev metrics_of : Option (Redis W) → Exec W (Dict ℕ × Dict ℕ × ℕ × ℕ)
  metrics_of none = pure ([], [], 0, 0)
  metrics_of (some redis) = Cache.metrics redis

  abbrev reset_of : Option (Redis W) → Exec W (Unit {0})
  reset_of none = pure tt
  reset_of (some redis) = Cache.reset redis

  -- cache_stats()
  pub cache_stats : Exec W (Dict ℕ × Dict ℕ × ℕ × ℕ)
  cache_stats = do
    lift (rbac_action "cache-view")
    service cache "Cache service is disabled, unable to query cache statistics" (metrics_of cache)

  -- cache_reset()
  pub cache_reset : Exec W (Dict ℕ × Dict ℕ × ℕ × ℕ)
  cache_reset = do
    lift (rbac_action "cache-reset")
    service cache "Cache service is disabled, unable to reset cache"
        (reset_of cache >> metrics_of cache)

abbrev pub metrics_policy_actions : Dict String
metrics_policy_actions =
    ("nodes", "nodes-view")
    ∷ ("cores", "nodes-view")
    ∷ ("gpus", "nodes-view")
    ∷ ("jobs", "jobs-view")
    ∷ ("cache", "cache-view")
    ∷ []

unfoldable pub permit : User → String → Option String → Result (Unit {0})
permit user metric none = raised (http_error 404 ("Metric " ^^ (metric ^^ " not found")))
permit user metric (some action) =
    if user.allowed action
    then ok tt
    else raised (http_error 403 ("Access to " ^^ (metric ^^ " metric not permitted")))

-- The guards of metrics(), up to the query of the database.
unfoldable pub metrics_guard : Bool → User → String → Result (Unit {0})
metrics_guard false user metric =
    raised (http_error 501 "Metrics are disabled, unable to query values")
metrics_guard true user metric = permit user metric (get metrics_policy_actions metric)
