-- ===== src/Agent/Info/Tests.antt =====
-- An agent and what the gateway reads of it.
use slurm_web.Base.{◌≡◌, refl, true, false, List, [], ◌∷◌, pos}
use slurm_web.Py.Value.{Value, boolean, str, int, list, cons, nil}
use slurm_web.Py.Result.{ok}
use slurm_web.Py.Ops.{getitem}
use slurm_web.Gateway.Agents.{from_json}
use slurm_web.Agent.Info.{Settings, info, permissions}
use slurm_web.Agent.Info.Parsed.{from_json-info}

abbrev settings : Settings
settings = record {
  cluster = "tiger";
  metrics = true;
  cache = false;
  racksdb_active = false;
  racksdb_infrastructure = "tiger";
  racksdb_version = "0.5.0";
  jobs_max_hours = pos 168;
  version = "6.1.0";
}

actions :
    getitem (permissions ("user" ∷ [], "jobs-view" ∷ [])) "actions"
    ≡ ok (list (cons (str "jobs-view") nil))
unfolding getitem permissions slurm_web.Base.get slurm_web.Py.Value.fields_of
actions = refl

from_json-info_example :
    from_json "http://tiger" (info settings)
    ≡ ok (record {
      version = str "6.1.0";
      cluster = str "tiger";
      racksdb = record {
        enabled = boolean false;
        version = str "0.5.0";
        infrastructure = str "tiger";
      };
      metrics = boolean true;
      cache = boolean false;
      jobs_max_hours = int (pos 168);
      url = "http://tiger";
    })
from_json-info_example = from_json-info "http://tiger" settings
