-- ===== src/Gateway/Views/Tests.antt =====
-- A gateway with two agents, of which one permits nothing to the user.
use slurm_web.Base.{
  ℕ, ◌+◌, String, ◌≡◌, refl, Bool, true, false, Option, none, some, List, [], ◌∷◌, ◌==◌,
  if◌then◌else◌, Dict, pos, All, ◌^^◌,
}
use slurm_web.Py.Value.{Value, boolean, str, int, list, cons, nil, dict, field, end}
use slurm_web.Py.Result.{Result, ok}
use slurm_web.Py.Exec.{pure}
use slurm_web.Gateway.Agents.{SlurmwebAgent}
use slurm_web.Gateway.Views.{Request, AgentRequest, Response, Env, Cluster, cluster_of, clusters}
use slurm_web.Gateway.Views.Clusters.{HasActions, clusters-HasActions}

abbrev agent_of : String → SlurmwebAgent
agent_of name = record {
  version = str "6.1.0";
  cluster = str name;
  racksdb = record { enabled = boolean false; version = str "0"; infrastructure = str "tiger" };
  metrics = boolean true;
  cache = boolean true;
  jobs_max_hours = int (pos 168);
  url = "http://" ^^ name;
}

abbrev known : Dict SlurmwebAgent
known = ("tiger", agent_of "tiger") ∷ ("lion", agent_of "lion") ∷ []

abbrev actions : Value
actions = list (cons (str "jobs-view") nil)

abbrev permissions : String → Value
permissions url =
    dict
      (field "actions" (if url == "http://tiger/v6.1.0/permissions" then actions else list nil) end)

-- the world counts the requests
abbrev enter : AgentRequest → ℕ → Result Response × ℕ
enter request n = (
  ok (record {
    status = 200;
    document = some (permissions request.url);
    content = [];
    content_type = none;
  }),
  n + 1,
)

abbrev env : Env ℕ
env = record { agents = pure known; enter = enter; format = λ v. "6.1.0" }

abbrev request : Request
request = record { method = "GET"; query_string = "raw=1"; token = "abc"; json = Value.null }

abbrev shown : List Cluster
shown = cluster_of (agent_of "tiger") (permissions "http://tiger/v6.1.0/permissions") ∷ []

two_requests : clusters env (record request { query_string = "" }) true 0 ≡ (ok shown, 2)
unfolding clusters slurm_web.Gateway.Views.get_clusters slurm_web.Gateway.Views.get_cluster
    slurm_web.Gateway.Views.request_agent slurm_web.Gateway.Views.agent_url
    slurm_web.Gateway.Views.agent slurm_web.Base.get slurm_web.Gateway.Views.read_permissions
    slurm_web.Gateway.Views.shown_cluster slurm_web.Py.Ops.getitem slurm_web.Py.Value.fields_of
    slurm_web.Py.Ops.is_empty slurm_web.Py.Ops.iterate slurm_web.Py.Value.items_of
two_requests = refl

clusters-HasActions_example : All HasActions shown
unfolding clusters slurm_web.Gateway.Views.get_clusters slurm_web.Gateway.Views.get_cluster
    slurm_web.Gateway.Views.request_agent slurm_web.Gateway.Views.agent_url
    slurm_web.Gateway.Views.agent slurm_web.Base.get slurm_web.Gateway.Views.read_permissions
    slurm_web.Gateway.Views.shown_cluster slurm_web.Py.Ops.getitem slurm_web.Py.Value.fields_of
    slurm_web.Py.Ops.is_empty slurm_web.Py.Ops.iterate slurm_web.Py.Value.items_of
clusters-HasActions_example =
    clusters-HasActions env (record request { query_string = "" }) 0 shown refl
