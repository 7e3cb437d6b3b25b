-- ===== src/Gateway/Agents.antt =====
-- slurmweb/apps/gateway.py: the agents that the gateway knows, and for how long.
pub mod Fresh
pub mod Tests
use slurm_web.Base.{
  ℕ, ◌+◌, String, ◌≡◌, Bool, true, false, Option, none, some, List, [], ◌∷◌, ◌==◌, ◌&&◌, not,
  if◌then◌else◌, Dict, get, put, length, eqb, ltb, ◌^^◌,
}
use slurm_web.Py.Value.{Value, dict, fields_of, truthy}
use slurm_web.Py.Error.{Exn, agent_error, key_error, type_error}
use slurm_web.Py.Result.{Result, ok, raised, or_raise, ◌>>=◌ as ◌>>>=◌}
use slurm_web.Py.Ops.{getitem, as_str}
use slurm_web.Py.Exec.{Exec, lift, pure, raise, gets, modify, rescue, try_except, ◌>>=◌, ◌>>◌}
use slurm_web.Gateway.Versions.{version_greater_or_equal}

-- SlurmwebAgentRacksDBSettings and SlurmwebAgentSlurmdbdSettings
pub record RacksDbSettings : Type 0 where
  pub enabled : Value
  pub version : Value
  pub infrastructure : Value

pub record SlurmwebAgent : Type 0 where
  pub version : Value
  pub cluster : Value
  pub racksdb : RacksDbSettings
  pub metrics : Value
  pub cache : Value
  pub jobs_max_hours : Value
  pub url : String

-- The keyword arguments of a named tuple are its fields, no more and no less.
unfoldable pub keyword : ℕ → String → Value → Result Value
keyword count k (dict fs) =
    if eqb (length (fields_of fs)) count
    then or_raise (get (fields_of fs) k) type_error
    else raised type_error
keyword count k v = raised type_error

unfoldable pub racksdb_settings : Value → Result RacksDbSettings
racksdb_settings v = keyword 3 "enabled" v >>>= λ enabled. keyword 3 "version" v >>>= λ version.
    keyword 3 "infrastructure" v >>>= λ infrastructure.
    ok (record { enabled = enabled; version = version; infrastructure = infrastructure })

unfoldable pub parse_agent : String → Value → Result SlurmwebAgent
parse_agent url data' = getitem data' "version" >>>= λ version.
    getitem data' "cluster" >>>= λ cluster. getitem data' "racksdb" >>>= λ racks.
    racksdb_settings racks >>>= λ racksdb. getitem data' "metrics" >>>= λ metrics.
    getitem data' "cache" >>>= λ cache. getitem data' "slurmdbd" >>>= λ dbd.
    keyword 1 "jobs_max_hours" dbd >>>= λ jobs_max_hours. ok (record {
      version = version;
      cluster = cluster;
      racksdb = racksdb;
      metrics = metrics;
      cache = cache;
      jobs_max_hours = jobs_max_hours;
      url = url;
    })

abbrev unparsed : Result SlurmwebAgent → Result SlurmwebAgent
unparsed (raised (key_error k)) =
    raised (agent_error "Unable to parse cluster info fields from agent")
unparsed r = r

-- from_json
unfoldable pub from_json : String → Value → Result SlurmwebAgent
unfolding parse_agent
from_json url data' = unparsed (parse_agent url data')

-- What aiohttp makes of a request: a status and a document, or ContentTypeError in its place; a
-- ClientConnectionError; or another exception.
pub data Fetched : Type 0 where
  answered : ℕ → Option Value → Fetched
  unreachable : Fetched
  failed : Exn → Fetched

-- The settings of the agents.
pub record AgentsSettings : Type 0 where
  pub version : String
  pub racksdb_version : String
  pub url : List String

racksdb_supported : AgentsSettings → Bool → Value → Result Bool
racksdb_supported settings true version =
    as_str version >>>= λ v. ok (version_greater_or_equal settings.racksdb_version v)
racksdb_supported settings false version = ok true

-- The two checks of _get_agent_info.
pub is_supported : AgentsSettings → SlurmwebAgent → Result Bool
unfolding racksdb_supported
is_supported settings agent = as_str agent.version >>>= λ version.
    if version_greater_or_equal settings.version version
    then racksdb_supported settings (truthy agent.racksdb.enabled) agent.racksdb.version
    else ok false

abbrev when_supported : SlurmwebAgent → Bool → Option SlurmwebAgent
when_supported agent true = some agent
when_supported agent false = none

abbrev checked : AgentsSettings → SlurmwebAgent → Result (Option SlurmwebAgent)
checked settings agent = is_supported settings agent >>>= λ fits. ok (when_supported agent fits)

-- An agent error is logged, and the agent left out.
abbrev or_left_out : AgentsSettings → Result SlurmwebAgent → Result (Option SlurmwebAgent)
or_left_out settings (ok agent) = checked settings agent
or_left_out settings (raised (agent_error e)) = ok none
or_left_out settings (raised e) = raised e

-- _get_agent_info, on what the request gave
pub agent_info : AgentsSettings → String → Fetched → Result (Option SlurmwebAgent)
agent_info settings url (answered status none) = ok none
agent_info settings url (answered status (some data')) =
    if eqb status 200 then or_left_out settings (from_json url data') else ok none
agent_info settings url unreachable = ok none
agent_info settings url (failed e) = raised e

add_agent : Option SlurmwebAgent → Dict SlurmwebAgent → Result (Dict SlurmwebAgent)
add_agent none agents = ok agents
add_agent (some agent) agents = as_str agent.cluster >>>= λ name. ok (put agents name agent)

-- The gateway, and the world with the agents and the clock.
pub record Gateway (W : Type 0) : Type 0 where
  pub agents : Dict SlurmwebAgent
  pub agents_timeout : ℕ
  pub world : W

module _ {W : Type 0} (fetch : String → W → Fetched × W) (clock : W → ℕ)
    (settings : AgentsSettings) where
  -- _get_agents_info, one agent after the other
  pub collect : List String → Dict SlurmwebAgent → Exec W (Dict SlurmwebAgent)
  collect [] agents w = (ok agents, w)
  collect (url ∷ urls) agents w =
      let (fetched, w') = fetch url w in
      (lift (agent_info settings url fetched) >>= λ found.
      lift (add_agent found agents) >>= λ more. collect urls more)
        w'

  settle : Gateway W → Result (Dict SlurmwebAgent) × W → Result (Dict SlurmwebAgent) × Gateway W
  settle g (ok found, w) =
      (ok found, record { agents = found; agents_timeout = clock w + 300; world = w })
  settle g (raised e, w) = (raised e, record g { world = w })

  poll : Exec (Gateway W) (Dict SlurmwebAgent)
  unfolding settle
  poll g = settle g (collect settings.url [] g.world)

  -- the property `agents`
  pub agents : Exec (Gateway W) (Dict SlurmwebAgent)
  unfolding poll
  agents g = if ltb (clock g.world) g.agents_timeout then (ok g.agents, g) else poll g
