-- ===== src/Agent/Views/Tests.antt =====
-- The views on a small cluster.
use slurm_web.Base.{
  ℕ, ◌≤◌, String, ◌≡◌, ◌↔◌, refl, Bool, true, false, Option, none, some, List, [], ◌∷◌, ◌==◌,
  length, get, pos, if◌then◌else◌,
}
use slurm_web.Py.Value.{Value, null, str, int, list, dict, cons, nil, field, end}
use slurm_web.Py.Error.{http_error}
use slurm_web.Py.Result.{Result, ok, raised}
use slurm_web.Py.Ops.{iterate}
use slurm_web.Py.Exec.{pure}
use slurm_web.Agent.Api.{Api}
use slurm_web.Agent.Errors.{slurmrest}
use slurm_web.Agent.Jobs.{User}
use slurm_web.Agent.Views.{
  View, nodes, qos, action_of, view, Stats, stats, cache_reset, metrics_guard,
  metrics_policy_actions,
}

abbrev job : String → Value
job state = dict (field "job_state" (list (cons (str state) nil)) end)

abbrev two_jobs : Value
two_jobs = list (cons (job "RUNNING") (cons (job "PENDING") nil))

abbrev one_node : Value
one_node = list (
    cons
      (dict (
        field "cpus" (int (pos 8))
          (field "real_memory" (int (pos 512)) (field "gres" (str "gpu:2") end))))
      nil)

abbrev api : Api (Unit {0})
api = record {
  discover = pure (null, null, none);
  jobs = pure two_jobs;
  jobs_past = λ hours. pure two_jobs;
  job = λ job_id. pure (job "RUNNING");
  nodes = pure one_node;
  node = λ name. pure null;
  partitions = pure (list nil);
  accounts = pure (list nil);
  associations = pure (list nil);
  reservations = pure (list nil);
  qos = pure (list nil);
}

abbrev format : Value → String
format v = "value"

abbrev policy : String → Result (Unit {0})
policy action = if action == "qos-view" then raised (http_error 403 "denied") else ok tt

abbrev computed : Stats
computed = record {
  nodes = 1;
  cores = pos 8;
  memory = pos 512;
  gpus = pos 2;
  running = 1;
  total = 2;
}

counted : (stats format policy api tt).0 ≡ ok computed
unfolding stats slurm_web.Agent.Errors.slurmrest iterate slurm_web.Agent.Views.count_running
    slurm_web.Agent.Views.count_resources slurm_web.Py.Ops.getitem slurm_web.Base.get
    slurm_web.Py.Value.fields_of slurm_web.Py.Value.items_of slurm_web.Py.Ops.contains
    slurm_web.Py.Value.equals_str slurm_web.Py.Ops.as_int
    slurm_web.Slurmrestd.Resources.node_gres_extract_gpus slurm_web.Py.Ops.as_str
    slurm_web.Base.split slurm_web.Base.parse_int slurm_web.Base.◌+ℤ◌
counted = refl

abbrev viewer : User
viewer = record { login = "marie"; allowed = λ action. action == "nodes-view" }
