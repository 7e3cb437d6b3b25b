-- ===== src/Agent/Jobs/Tests.antt =====
-- Two users on a client with the jobs of two users.
use slurm_web.Base.{
  ℕ, String, ◌≡◌, ◌≤◌, refl, Bool, true, false, Option, none, some, List, [], ◌∷◌, ◌==◌, ◌||◌,
  arith, lower, pos, parse_int, codes,
}
use slurm_web.Py.Value.{Value, null, str, list, dict, cons, nil, field, end}
use slurm_web.Py.Error.{not_found, Exn}
use slurm_web.Py.Result.{Result, ok, raised}
use slurm_web.Py.Exec.{pure, raise}
use slurm_web.Agent.Api.{Api}
use slurm_web.Agent.Errors.{slurmrest, translate, is_service_error, slurmrest-closed}
use slurm_web.Agent.Jobs.{User, is_owned, clamp_hours, jobs, job, jobs_past}
use slurm_web.Agent.Jobs.Access.{Own, jobs-Own, job-own}

abbrev job_of : String → Value
job_of name = dict (
    field "user_name" (str name)
      (field "user" (str name) (field "job_state" (list (cons (str "RUNNING") nil)) end)))

abbrev two_jobs : Value
two_jobs = list (cons (job_of "Marie") (cons (job_of "root") nil))

abbrev api : Api (Unit {0})
api = record {
  discover = pure (null, null, none);
  jobs = pure two_jobs;
  jobs_past = λ hours. pure two_jobs;
  job = λ job_id. pure (job_of "marie");
  nodes = pure (list nil);
  node = λ name. raise (not_found name);
  partitions = pure (list nil);
  accounts = pure (list nil);
  associations = pure (list nil);
  reservations = pure (list nil);
  qos = pure (list nil);
}

abbrev format : Value → String
format v = "value"

abbrev in_set : String → String → Result Bool
in_set node nodes = ok (node == nodes)

abbrev marie : User
marie = record {
  login = "marie";
  allowed = λ action. action == "jobs-view-own" || action == "jobs-view-past-own";
}

abbrev nobody : User
nobody = record { login = "nobody"; allowed = λ action. false }

her_jobs : (jobs format in_set api marie none tt).0 ≡ ok (job_of "Marie" ∷ [])
unfolding jobs slurm_web.Agent.Jobs.own_only slurmrest slurm_web.Agent.Jobs.jobs_current
    slurm_web.Py.Ops.iterate slurm_web.Slurmrestd.Jobs.current slurm_web.Slurmrestd.Jobs.select
    slurm_web.Py.Value.items_of slurm_web.Slurmrestd.Jobs.has_terminal_state
    slurm_web.Py.Ops.get_default slurm_web.Base.get slurm_web.Py.Value.fields_of
    slurm_web.Agent.Jobs.restrict slurm_web.Py.Value.equals_str is_owned slurm_web.Py.Ops.as_str
    lower slurm_web.Slurmrestd.Jobs.is_terminal
her_jobs = refl

jobs-Own_example : Own marie "jobs-view" "user_name" (job_of "Marie" ∷ [])
jobs-Own_example = jobs-Own format in_set api marie none tt (job_of "Marie" ∷ []) her_jobs

her_past_jobs : (jobs_past format in_set api 24 marie (some "12") tt).0 ≡ ok (job_of "Marie" ∷ [])
unfolding jobs_past slurm_web.Agent.Jobs.own_only clamp_hours parse_int slurmrest
    slurm_web.Py.Ops.iterate slurm_web.Agent.Jobs.restrict slurm_web.Slurmrestd.Jobs.select
    slurm_web.Py.Value.items_of is_owned slurm_web.Py.Ops.get_default slurm_web.Py.Ops.as_str
    slurm_web.Base.get slurm_web.Py.Value.fields_of lower
her_past_jobs = refl

her_job : (job format in_set api marie 7 tt).0 ≡ ok (job_of "marie")
unfolding job slurm_web.Agent.Jobs.own_only slurmrest slurm_web.Agent.Jobs.withhold is_owned
    slurm_web.Py.Ops.get_default slurm_web.Py.Ops.as_str slurm_web.Base.get
    slurm_web.Py.Value.fields_of lower
her_job = refl

job-own_example : is_owned "user" (lower "marie") (job_of "marie") ≡ ok true
job-own_example = job-own format in_set api marie 7 tt (job_of "marie") her_job refl

twelve : clamp_hours 24 (some "12") ≡ ok 12
unfolding clamp_hours parse_int
twelve = refl

slurmrest-closed_example :
    ((a : Value)
      → (api.node "cn1" tt).0 ≡ ok a
      → slurmrest format (api.node "cn1") tt ≡ api.node "cn1" tt)
    × ((e : Exn)
        → (api.node "cn1" tt).0 ≡ raised e
        → (slurmrest format (api.node "cn1") tt
            ≡ (raised (translate format e), (api.node "cn1" tt).1))
          × (is_service_error format (translate format e) ≡ false))
slurmrest-closed_example = slurmrest-closed format (api.node "cn1") tt
