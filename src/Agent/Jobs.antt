-- ===== src/Agent/Jobs.antt =====
-- slurmweb/views/agent.py: the views of jobs, and whose jobs they show.
pub mod Access
pub mod Tests
use slurm_web.Base.{
  ℕ, String, ◌≡◌, Bool, true, false, Option, none, some, List, [], ◌∷◌, ◌==◌, ◌||◌, not,
  if◌then◌else◌, ◌^^◌, max, min, ℤ, to_ℕ, parse_int, codes, lower, elem, any,
}
use slurm_web.Py.Value.{Value, str, list, dict, nil, end}
use slurm_web.Py.Error.{Exn, http_error}
use slurm_web.Py.Result.{Result, ok, raised, ◌>>=◌ as ◌>>>=◌}
use slurm_web.Py.Ops.{get_default, iterate, as_str, contains, getitem, as_int}
use slurm_web.Py.Exec.{Exec, lift, pure, raise, ◌>>=◌, ◌>>◌}
use slurm_web.Slurmrestd.Jobs.{current, by_node, select, is_terminal}
use slurm_web.Agent.Api.{Api}
use slurm_web.Agent.Errors.{slurmrest}

-- job.get(key, "").lower() == login
pub is_owned : String → String → Value → Result Bool
is_owned key login job =
    get_default job key (str "") >>>= λ user. as_str user >>>= λ name. ok (lower name == login)

-- The user of a request, and the policy for this user: allowed_user_action.
pub record User : Type 0 where
  pub login : String
  pub allowed : String → Bool

-- Is the view restricted to the user's own jobs? Without either permission the request is refused.
pub own_only : User → String → String → Result Bool
own_only user view own =
    if user.allowed view
    then ok false
    else if user.allowed own
    then ok true
    else raised
        (http_error 403 ("User is not allowed to perform action " ^^ (view ^^ (" or " ^^ own))))

-- the comprehension over the list, where the view is restricted
pub restrict : Bool → String → String → List Value → Result (List Value)
restrict false key login jobs = ok jobs
restrict true key login jobs = select (is_owned key (lower login)) jobs

pub withhold : Bool → String → Value → Result Value
withhold false login job_data = ok job_data
withhold true login job_data = is_owned "user" (lower login) job_data >>>= λ owned.
    if owned then ok job_data else raised (http_error 404 "Job not found")

-- `if node`
abbrev pub chosen_node : Option String → Option String
chosen_node none = none
chosen_node (some node) = if node == "" then none else some node

-- The query parameter of jobs_past, between 1 and the limit.
pub clamp_hours : ℕ → Option String → Result ℕ
clamp_hours limit none = raised (http_error 400 "Missing hours query parameter")
clamp_hours limit (some text) = elim (parse_int (codes text)) [
  | none ↦ raised (http_error 400 "Invalid hours query parameter")
  | some hours ↦ ok (max 1 (min (to_ℕ hours) limit))
]

module _ {S : Type 0} (format : Value → String) (in_nodeset : String → String → Result Bool)
    (api : Api S) where
  -- jobs_current() and jobs_by_node() of the client
  pub jobs_current : Exec S (List Value)
  jobs_current = do all_jobs ← api.jobs; jobs ← lift (iterate all_jobs); lift (current jobs)

  pub jobs_by_node : String → Exec S (List Value)
  jobs_by_node node = do jobs ← jobs_current; lift (by_node in_nodeset node jobs)

  abbrev pub listed : Option String → Exec S (List Value)
  listed none = slurmrest format jobs_current
  listed (some node) = slurmrest format (jobs_by_node node)

  -- jobs()
  pub jobs : User → Option String → Exec S (List Value)
  jobs user node = do
    own ← lift (own_only user "jobs-view" "jobs-view-own")
    jobs_list ← listed (chosen_node node)
    lift (restrict own "user_name" user.login jobs_list)

  -- job() and _authorized_job()
  pub job : User → ℕ → Exec S Value
  job user job_id = do
    own ← lift (own_only user "jobs-view" "jobs-view-own")
    job_data ← slurmrest format (api.job job_id)
    lift (withhold own user.login job_data)

  -- jobs_past(), with the limit of the settings
  pub jobs_past : ℕ → User → Option String → Exec S (List Value)
  jobs_past limit user hours = do
    own ← lift (own_only user "jobs-view-past" "jobs-view-past-own")
    n ← lift (clamp_hours limit hours)
    past ← slurmrest format (api.jobs_past n)
    jobs_list ← lift (iterate past)
    lift (restrict own "user" user.login jobs_list)
