-- ===== src/Slurmrestd/Cached.antt =====
-- slurmweb/slurmrestd/__init__.py, the class SlurmrestdFilteredCached: answers from the cache.
pub mod Answers
pub mod Tests
use slurm_web.Base.{
  ℕ, String, ◌≡◌, Bool, true, false, Option, none, some, if◌then◌else◌, ◌^^◌, show,
}
use slurm_web.Py.Value.{Value, null}
use slurm_web.Py.Result.{Result, ok, raised}
use slurm_web.Py.Exec.{Exec, pure, ◌>>=◌, ◌>>◌}
use slurm_web.Cache
use slurm_web.Cache.{CacheKey, cache_key, Redis}
use slurm_web.Slurmrestd.Client.{Client, Net}
use slurm_web.Slurmrestd.Filtered
use slurm_web.Slurmrestd.Filtered.{Filters}

-- The settings of the cache: the expirations in seconds.
pub record CacheSettings : Type 0 where
  pub enabled : Bool
  pub jobs : ℕ
  pub jobs_past : ℕ
  pub job : ℕ
  pub nodes : ℕ
  pub node : ℕ
  pub partitions : ℕ
  pub accounts : ℕ
  pub associations : ℕ
  pub reservations : ℕ
  pub qos : ℕ

-- A command of the service, in a method of the client: the server is part of the world.
abbrev pub on_world : {W A : Type 0} → Exec W A → Exec (Client W) A
on_world m c = let (r, w) = m c.world in (r, record c { world = w })

module _ {W : Type 0} (redis : Redis W) where
  abbrev fresh : CacheKey → ℕ → Exec (Client W) Value → Exec (Client W) Value
  fresh key expiration func = do
    data' ← func
    on_world (Cache.put redis key data' expiration)
    on_world (Cache.count_miss redis key)
    pure data'

  -- `if data is None`, which a None from the cache is as well
  abbrev serve : CacheKey → ℕ → Exec (Client W) Value → Option Value → Exec (Client W) Value
  serve key expiration func none = fresh key expiration func
  serve key expiration func (some null) = fresh key expiration func
  serve key expiration func (some v) = do on_world (Cache.count_hit redis key); pure v

  -- _cached
  pub cached : Bool → CacheKey → ℕ → Exec (Client W) Value → Exec (Client W) Value
  cached false key expiration func = func
  cached true key expiration func = do
    found ← on_world (Cache.get redis key)
    serve key expiration func found

  module _ (net : Net W) (filters : Filters) (cache : CacheSettings) where
    pub jobs : Exec (Client W) Value
    jobs = cached cache.enabled (cache_key "jobs" none) cache.jobs (Filtered.jobs net filters)

    pub jobs_past : ℕ → Exec (Client W) Value
    jobs_past hours =
        cached cache.enabled (cache_key ("jobs-past-" ^^ show hours) (some "jobs-past"))
          cache.jobs_past (Filtered.jobs_past net filters hours)

    pub job : ℕ → Exec (Client W) Value
    job job_id =
        cached cache.enabled (cache_key ("job-" ^^ show job_id) (some "individual-job")) cache.job
          (Filtered.job net filters job_id)

    pub nodes : Exec (Client W) Value
    nodes = cached cache.enabled (cache_key "nodes" none) cache.nodes (Filtered.nodes net filters)

    pub node : String → Exec (Client W) Value
    node node_name =
        cached cache.enabled (cache_key ("node-" ^^ node_name) (some "individual-node")) cache.node
          (Filtered.node net filters node_name)

    pub partitions : Exec (Client W) Value
    partitions =
        cached cache.enabled (cache_key "partitions" none) cache.partitions
          (Filtered.partitions net filters)

    pub accounts : Exec (Client W) Value
    accounts =
        cached cache.enabled (cache_key "accounts" none) cache.accounts
          (Filtered.accounts net filters)

    pub associations : Exec (Client W) Value
    associations =
        cached cache.enabled (cache_key "associations" none) cache.associations
          (Filtered.associations net filters)

    pub reservations : Exec (Client W) Value
    reservations =
        cached cache.enabled (cache_key "reservations" none) cache.reservations
          (Filtered.reservations net filters)

    pub qos : Exec (Client W) Value
    qos = cached cache.enabled (cache_key "qos" none) cache.qos (Filtered.qos net filters)
