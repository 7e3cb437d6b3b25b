-- ===== src/Slurmrestd/Jobs.antt =====
-- slurmweb/slurmrestd/__init__.py: what the client computes from the list of jobs.
pub mod States
pub mod Current
pub mod Tests
use slurm_web.Base.{
  ℕ, zero, suc, ◌+◌, ◌-◌, ◌*◌, String, ◌≡◌, Bool, true, false, Option, none, some, List, [], ◌∷◌,
  ◌==◌, ◌&&◌, ◌||◌, not, if◌then◌else◌, any, elem, Dict, get, put, keys, upper, show, ◌^^◌, map,
  ◌++◌, ℤ, pos, negsuc, ◌-ℤ◌,
}
use slurm_web.Py.Value.{Value, str, list, nil, items_of, equals_str}
use slurm_web.Py.Error.{Exn, key_error}
use slurm_web.Py.Result.{Result, ok, raised, or_raise, ◌>>=◌}
use slurm_web.Py.Ops.{getitem, get_default, contains, iterate, as_str}

abbrev pub terminal_job_states : List String
terminal_job_states =
    "COMPLETED" ∷ "FAILED" ∷ "TIMEOUT" ∷ "CANCELLED" ∷ "PREEMPTED" ∷ "OUT_OF_MEMORY" ∷ "NODE_FAIL"
    ∷ "BOOT_FAIL" ∷ "DEADLINE" ∷ []

-- state in TERMINAL_JOB_STATES
unfoldable pub is_terminal : Value → Bool
is_terminal state = any (equals_str state) terminal_job_states

-- _job_has_terminal_state
unfoldable pub has_terminal_state : Value → Result Bool
unfolding is_terminal
has_terminal_state job = do
  listed ← get_default job "job_state" (list nil)
  states ← iterate listed
  ok (any is_terminal states)

-- [job for job in jobs if test(job)]
unfoldable pub select : (Value → Result Bool) → List Value → Result (List Value)
select test [] = ok []
select test (job ∷ jobs) = do
  chosen ← test job
  rest ← select test jobs
  ok (if chosen then job ∷ rest else rest)

-- jobs_current, on the result of self.jobs()
unfoldable pub current : List Value → Result (List Value)
current jobs = select (λ job. has_terminal_state job >>= λ terminal. ok (not terminal)) jobs

-- jobs_by_node, on the result of self.jobs_current(); the parameter is ClusterShell's
-- `node in NodeSet(nodes)`.
module _ (in_nodeset : String → String → Result Bool) where
  on_node_of : String → Value → Result Bool
  on_node_of node (str nodes) = if nodes == "" then ok false else in_nodeset node nodes
  on_node_of node nodes = as_str nodes >>= λ s. in_nodeset node s

  pub on_node : String → Value → Result Bool
  unfolding on_node_of
  on_node node job = do nodes ← getitem job "nodes"; on_node_of node nodes

  pub by_node : String → List Value → Result (List Value)
  by_node node jobs = select (on_node node) jobs

-- The base states that jobs_states counts, in the order in which they are tried.
abbrev pub base_states : List String
base_states =
    "running" ∷ "pending" ∷ "completing" ∷ "completed" ∷ "cancelled" ∷ "suspended" ∷ "preempted"
    ∷ "failed" ∷ "timeout" ∷ "node_fail" ∷ "boot_fail" ∷ "deadline" ∷ "out_of_memory" ∷ "unknown"
    ∷ []

abbrev pub zeros : List String → Dict ℕ
zeros [] = []
zeros (k ∷ ks) = (k, 0) ∷ zeros ks

-- jobs[state] += 1
unfoldable pub bump : Dict ℕ → String → Result (Dict ℕ)
bump counts k = do n ← or_raise (get counts k) (key_error k); ok (put counts k (n + 1))

-- The inner loop, up to its break: the first state of the row that the job has.
unfoldable pub first_state : List String → Value → Result (Option String)
first_state [] job = ok none
first_state (k ∷ ks) job = do
  states ← getitem job "job_state"
  hit ← contains (upper k) states
  let rest = first_state ks job
  if hit then ok (some k) else rest

abbrev pub or_unknown : Option String → String
or_unknown none = "unknown"
or_unknown (some k) = k

unfoldable pub count_jobs : Dict ℕ → ℕ → List Value → Result (Dict ℕ × ℕ)
count_jobs counts total [] = ok (counts, total)
count_jobs counts total (job ∷ jobs) = do
  found ← first_state (keys counts) job
  counts' ← bump counts (or_unknown found)
  count_jobs counts' (total + 1) jobs

-- jobs_states, on the result of self.jobs()
unfoldable pub jobs_states : List Value → Result (Dict ℕ × ℕ)
jobs_states jobs = count_jobs (zeros base_states) 0 jobs

-- f"uts{n}"
unfoldable pub uts : ℤ → String
uts (pos n) = "uts" ^^ show n
uts (negsuc n) = "uts-" ^^ show (suc n)

-- _past_jobs_query_params, at the time `now`
unfoldable pub past_jobs_query_params : ℕ → ℕ → List (String × String)
unfolding uts
past_jobs_query_params now hours =
    ("start_time", uts (pos now -ℤ pos (hours * 3600)))
    ∷ ("end_time", uts (pos now))
    ∷ map (λ state. ("state", state)) terminal_job_states
