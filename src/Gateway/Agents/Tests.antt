-- ===== src/Gateway/Agents/Tests.antt =====
-- A gateway with one agent that fits and one that does not.
use slurm_web.Base.{
  ℕ, ◌+◌, String, ◌≡◌, refl, Bool, true, false, Option, none, some, List, [], ◌∷◌, ◌==◌,
  if◌then◌else◌, Dict, get, arith, pos, ap, ◌<◌,
}
use slurm_web.Py.Value.{Value, Fields, boolean, str, int, dict, field, end}
use slurm_web.Py.Result.{Result, ok}
use slurm_web.Gateway.Agents.{
  SlurmwebAgent, AgentsSettings, Fetched, answered, Gateway, agents, poll, settle, add_agent,
}
use slurm_web.Gateway.Agents.Fresh.{AllSupported, agents-AllSupported}

abbrev document : String → String → Value
document cluster version = dict (
    field "version" (str version) (
      field "cluster" (str cluster) (
        field "racksdb"
          (dict (
            field "enabled" (boolean false)
              (field "version" (str "0") (field "infrastructure" (str "tiger") end))))
          (field "metrics" (boolean true) (
            field "cache" (boolean true)
              (field "slurmdbd" (dict (field "jobs_max_hours" (int (pos 168)) end)) end))))))

abbrev fetch : String → ℕ → Fetched × ℕ
fetch url w = (
  answered 200
      (some (if url == "http://new" then document "new" "6.1.0" else document "old" "5.0.0")),
  w + 1,
)

abbrev clock : ℕ → ℕ
clock w = w

abbrev settings : AgentsSettings
settings = record {
  version = "6.0.0";
  racksdb_version = "0.5.0";
  url = "http://new" ∷ "http://old" ∷ [];
}

abbrev gateway : Gateway ℕ
gateway = record { agents = []; agents_timeout = 0; world = 1000 }

abbrev new_agent : SlurmwebAgent
new_agent = record {
  version = str "6.1.0";
  cluster = str "new";
  racksdb = record { enabled = boolean false; version = str "0"; infrastructure = str "tiger" };
  metrics = boolean true;
  cache = boolean true;
  jobs_max_hours = int (pos 168);
  url = "http://new";
}

abbrev known : Dict SlurmwebAgent
known = ("new", new_agent) ∷ []

polled :
    agents fetch clock settings gateway
    ≡ (ok known, record { agents = known; agents_timeout = 1302; world = 1002 })
unfolding agents poll settle slurm_web.Gateway.Agents.collect slurm_web.Gateway.Agents.agent_info
    slurm_web.Gateway.Agents.from_json slurm_web.Py.Ops.getitem get slurm_web.Py.Value.fields_of
    slurm_web.Gateway.Agents.racksdb_settings slurm_web.Gateway.Agents.keyword
    slurm_web.Gateway.Agents.is_supported slurm_web.Py.Ops.as_str
    slurm_web.Gateway.Versions.version_greater_or_equal slurm_web.Gateway.Versions.version_tuple
    slurm_web.Gateway.Versions.compare_versions slurm_web.Gateway.Versions.int_or_str
    slurm_web.Gateway.Versions.same_part slurm_web.Gateway.Versions.le_part slurm_web.Base.split
    slurm_web.Base.parse_int slurm_web.Base.strip slurm_web.Py.Value.truthy slurm_web.Base.put
    add_agent
polled = refl

polled_result : (agents fetch clock settings gateway).0 ≡ ok known
polled_result = ap (λ (x : Result (Dict SlurmwebAgent) × Gateway ℕ). x.0) polled

none_yet : AllSupported settings gateway.agents
unfolding get
none_yet name agent h = cc

agents-AllSupported_example :
    AllSupported settings known
    × AllSupported settings (agents fetch clock settings gateway).1.agents
agents-AllSupported_example =
    agents-AllSupported fetch clock settings gateway known none_yet polled_result

soon : 1301 < (agents fetch clock settings gateway).1.world + 300
soon = rw polled (omega arith)
