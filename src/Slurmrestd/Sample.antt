-- ===== src/Slurmrestd/Sample.antt =====
-- A slurmrestd with a few answers, and a client of it, for the tests.
use slurm_web.Base.{String, true, false, Option, none, some, [], ◌∷◌, ◌==◌, if◌then◌else◌, pos}
use slurm_web.Py.Value.{Value, Fields, null, str, int, list, dict, nil, cons, field, end}
use slurm_web.Py.Result.{ok}
use slurm_web.Slurmrestd.Auth.{Tokens, Authentifier}
use slurm_web.Slurmrestd.Adapters.{v0_0_43}
use slurm_web.Slurmrestd.Response.{Response}
use slurm_web.Slurmrestd.Client.{Client, Net, answered}

abbrev pub clockwork : Tokens (Unit {0})
clockwork = record {
  clock = λ w. 0;
  tick = λ w. w;
  generate = λ l u w. (ok "token", w);
  expiration_of = λ s w. none;
  key_loads = λ k w. true;
}

-- a document without errors, with something under a key
abbrev pub document : String → Value → Value
document key v = dict (field "errors" (list nil) (field "warnings" (list nil) (field key v end)))

abbrev pub page : String → Option Value → Response
page content_type json = record {
  status_code = 200;
  url = "";
  text = "";
  content_type = some content_type;
  json = json;
}

abbrev pub acct_fields : Fields
acct_fields = field "job_id" (int (pos 7)) (field "user" (str "marie") end)

abbrev pub ctld_fields : Fields
ctld_fields = field "priority" (int (pos 3)) (field "user" (str "root") end)

abbrev pub serve : String → Response
serve url =
    if url == "http+unix://slurmrestd/slurm/v0.0.43/ping"
    then page "application/json" (
        some (
          document "meta" (
            dict (
              field "slurm" (dict (field "cluster" (str "hpc") (field "release" (str "24.11") end)))
                end))))
    else if url == "http+unix://slurmrestd/slurmdb/v0.0.43/job/7"
    then page "application/json" (some (document "jobs" (list (cons (dict acct_fields) nil))))
    else if url == "http+unix://slurmrestd/slurm/v0.0.43/job/7"
    then page "application/json" (some (document "jobs" (list (cons (dict ctld_fields) nil))))
    else page "text/plain" none

abbrev pub sample_net : Net (Unit {0})
sample_net = record {
  tokens = clockwork;
  http_get = λ request w. (answered (serve request.url), w);
}

abbrev pub local_auth : Authentifier
local_auth = record {
  method = "local";
  jwt_mode = "auto";
  jwt_user = "slurm";
  jwt_key = "";
  jwt_lifespan = 3600;
  jwt_token = none;
  expiration = none;
  has_manager = false;
}

-- a client that has not discovered its version yet, and one that has
abbrev pub new_client : Client (Unit {0})
new_client = record {
  prefix = "http+unix://slurmrestd";
  auth = local_auth;
  supported_versions = "0.0.44" ∷ "0.0.43" ∷ [];
  cluster_name = null;
  slurm_version = null;
  api_version = none;
  adaptation_chain = [];
  world = tt;
}

-- the client after discovery: the first version does not answer in JSON, the second one does
abbrev pub found_client : Client (Unit {0})
found_client = record new_client {
  cluster_name = str "hpc";
  slurm_version = str "24.11";
  api_version = some "0.0.43";
  adaptation_chain = v0_0_43 ∷ [];
}
