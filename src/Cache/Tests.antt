-- ===== src/Cache/Tests.antt =====
-- The cache on the server in memory.
use slurm_web.Base.{
  ℕ, ◌+◌, String, ◌≡◌, refl, Bool, true, false, Option, none, some, List, [], ◌∷◌, ◌==◌,
  if◌then◌else◌, arith, eq_iff,
}
use slurm_web.Py.Value.{str}
use slurm_web.Py.Result.{ok}
use slurm_web.Cache.{
  CacheKey, cache_key, put, get, metrics, count_hit, count_miss, collect, record_value,
}
use slurm_web.Cache.Counting.{get-put_lem, IsCountable}
use slurm_web.Cache.Memory.{Memory, memory, memory_server}
use slurm_web.Cache.Statistics.{
  IsNumeric, value, uses, Event, record_events, record_event, record_events-value,
}

abbrev empty : Memory
empty = record { values = []; sets = [] }

abbrev jobs_key : CacheKey
jobs_key = cache_key "jobs" none

abbrev job_key : CacheKey
job_key = cache_key "job-7" (some "individual-job")

get-put_lem_example :
    (get memory jobs_key (put memory jobs_key (str "data") 30 empty).1).0
    ≡ (if "jobs" == "jobs" then ok (some (str "data")) else (get memory jobs_key empty).0)
get-put_lem_example = get-put_lem memory_server jobs_key jobs_key (str "data") 30 empty refl refl

abbrev three_events : List Event
three_events = (false, jobs_key) ∷ (true, jobs_key) ∷ (true, job_key) ∷ []

empty-IsNumeric : IsNumeric memory_server empty
unfolding value memory_server slurm_web.Base.get
empty-IsNumeric b c = refl

jobs-IsCountable : IsCountable "jobs"
jobs-IsCountable =
    (λ e. ground (arith, eq_iff "jobs" "total"), λ e. ground (arith, eq_iff "jobs" "keys"))

job-IsCountable : IsCountable "individual-job"
job-IsCountable = (
  λ e. ground (arith, eq_iff "individual-job" "total"),
  λ e. ground (arith, eq_iff "individual-job" "keys"),
)

record_events-value_example :
    ((record_events memory_server three_events empty).0 ≡ ok tt)
    × IsNumeric memory_server (record_events memory_server three_events empty).1
    × ((b : Bool) (c : String)
        → value memory_server (record_events memory_server three_events empty).1 b c
          ≡ uses b c three_events + value memory_server empty b c)
record_events-value_example =
    record_events-value memory_server three_events empty
      (jobs-IsCountable, (jobs-IsCountable, (job-IsCountable, tt))) empty-IsNumeric

-- what metrics() gives after these events
reported :
    (metrics memory (record_events memory_server three_events empty).1).0
    ≡ ok (("individual-job", 1) ∷ ("jobs", 1) ∷ [], ("jobs", 1) ∷ [], 2, 1)
unfolding record_events record_event count_hit count_miss metrics collect record_value
    slurm_web.Base.get slurm_web.Base.put
reported = refl
