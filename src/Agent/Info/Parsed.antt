-- ===== src/Agent/Info/Parsed.antt =====
-- The gateway reads what an agent says of itself (slurmweb/views/agent.py, slurmweb/apps/gateway.py).
use slurm_web.Base.{String, ◌≡◌, refl, arith}
use slurm_web.Py.Value.{boolean, str, int}
use slurm_web.Py.Result.{ok}
use slurm_web.Gateway.Agents.{SlurmwebAgent, from_json}
use slurm_web.Agent.Info.{Settings, info}

-- The gateway makes of the document of an agent, whatever its settings, an agent with the same
-- settings under its URL.
pub from_json-info :
    (url : String) (s : Settings)
    → from_json url (info s)
      ≡ ok (record {
        version = str s.version;
        cluster = str s.cluster;
        racksdb = record {
          enabled = boolean s.racksdb_active;
          version = str s.racksdb_version;
          infrastructure = str s.racksdb_infrastructure;
        };
        metrics = boolean s.metrics;
        cache = boolean s.cache;
        jobs_max_hours = int s.jobs_max_hours;
        url = url;
      })
unfolding from_json info slurm_web.Py.Ops.getitem slurm_web.Base.get slurm_web.Py.Value.fields_of
    slurm_web.Gateway.Agents.racksdb_settings slurm_web.Gateway.Agents.keyword
from_json-info url s = refl
