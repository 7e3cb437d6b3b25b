-- ===== src/Gateway/Views.antt =====
-- slurmweb/views/gateway.py: the views of the gateway that ask the agents.
pub mod Relayed
pub mod Clusters
pub mod Tests
use slurm_web.Base.{
  ℕ, ◌+◌, String, Bool, true, false, Option, none, some, List, [], ◌∷◌, ◌==◌, ◌&&◌, not,
  if◌then◌else◌, Dict, get, has, eqb, ◌^^◌, show,
}
use slurm_web.Py.Value.{Value, truthy}
use slurm_web.Py.Error.{Exn, http_error, key_error, other_error}
use slurm_web.Py.Result.{Result, ok, raised, or_raise, ◌>>=◌ as ◌>>>=◌}
use slurm_web.Py.Ops.{getitem, is_empty}
use slurm_web.Py.Exec.{Exec, lift, pure, raise, choose, ◌>>=◌, ◌>>◌}
use slurm_web.Gateway.Agents.{SlurmwebAgent}

-- The request of the browser.
pub record Request : Type 0 where
  pub method : String
  pub query_string : String
  pub token : String
  pub json : Value

-- The request that the gateway sends to an agent.
pub record AgentRequest : Type 0 where
  pub url : String
  pub authorization : Option String
  pub body : Option Value

-- What an agent answers; there is no document where its type is not that of JSON.
pub record Response : Type 0 where
  pub status : ℕ
  pub document : Option Value
  pub content : List ℕ
  pub content_type : Option String

-- What a view answers.
pub data Reply : Type 0 where
  json : Value → ℕ → Reply
  raw : (content : List ℕ) (status : ℕ) (mimetype : Option String) → Reply

-- The views that relay a request, with what they take from the path.
pub data View : Type 0 where
  ping stats cache_stats cache_reset jobs jobs_past nodes partitions qos reservations : View
  accounts associations : View
  job job_gpus job_checks job_diagnostics : ℕ → View
  job_log : (as_text : Bool) → ℕ → View
  node metrics : String → View

-- the query that a view relays
pub query_of : View → String
query_of View.ping = "ping"
query_of View.stats = "stats"
query_of View.cache_stats = "cache/stats"
query_of View.cache_reset = "cache/reset"
query_of View.jobs = "jobs"
query_of View.jobs_past = "jobs/past"
query_of View.nodes = "nodes"
query_of View.partitions = "partitions"
query_of View.qos = "qos"
query_of View.reservations = "reservations"
query_of View.accounts = "accounts"
query_of View.associations = "associations"
query_of (View.job n) = "job/" ^^ show n
query_of (View.job_gpus n) = "job/" ^^ (show n ^^ "/gpus")
query_of (View.job_checks n) = "job/" ^^ (show n ^^ "/checks")
query_of (View.job_diagnostics n) = "job/" ^^ (show n ^^ "/diagnostics")
query_of (View.job_log as_text n) = "job/" ^^ (show n ^^ "/log")
query_of (View.node name) = "node/" ^^ name
query_of (View.metrics metric) = "metrics/" ^^ metric

-- view.__name__
pub name_of : View → String
name_of View.ping = "ping"
name_of View.stats = "stats"
name_of View.cache_stats = "cache_stats"
name_of View.cache_reset = "cache_reset"
name_of View.jobs = "jobs"
name_of View.jobs_past = "jobs_past"
name_of View.nodes = "nodes"
name_of View.partitions = "partitions"
name_of View.qos = "qos"
name_of View.reservations = "reservations"
name_of View.accounts = "accounts"
name_of View.associations = "associations"
name_of (View.job n) = "job"
name_of (View.job_gpus n) = "job_gpus"
name_of (View.job_checks n) = "job_checks"
name_of (View.job_diagnostics n) = "job_diagnostics"
name_of (View.job_log as_text n) = "job_log"
name_of (View.node name) = "node"
name_of (View.metrics metric) = "metrics"

-- json=not raw
abbrev pub as_json : View → Bool
as_json (View.job_log as_text n) = not as_text
as_json v = true

-- What the gateway uses: its property `agents`, the request of aiohttp, which is made where the context
-- of the request is entered, and what an f-string makes of a value.
pub record Env (S : Type 0) : Type 0 where
  pub agents : Exec S (Dict SlurmwebAgent)
  pub enter : AgentRequest → Exec S Response
  pub format : Value → String

-- headers = {"Authorization": …} if token is not None
abbrev pub bearer : Option String → Option String
bearer none = none
bearer (some token) = some ("Bearer " ^^ token)

-- the query string, if there is one
pub with_query : String → Request → String
with_query url request =
    if request.query_string == "" then url else url ^^ ("?" ^^ request.query_string)

-- the branches on the method
pub prepare : Request → String → Option String → Result AgentRequest
prepare request url token =
    if request.method == "GET"
    then ok (record { url = url; authorization = bearer token; body = none })
    else if request.method == "POST"
    then ok (record { url = url; authorization = bearer token; body = some request.json })
    else raised (http_error 500 ("Unsupported request method " ^^ request.method))

module _ {S : Type 0} (env : Env S) (request : Request) where
  -- current_app.agents[cluster]
  unfoldable pub agent : String → Exec S SlurmwebAgent
  agent cluster = do known ← env.agents; lift (or_raise (get known cluster) (key_error cluster))

  -- validate_cluster; the check of the token by RFL comes before
  unfoldable pub validate_cluster : {A : Type 0} → String → String → Exec S A → Exec S A
  validate_cluster name cluster view = do
    known ← env.agents
    choose (has known cluster) view (
        raise (
          http_error 404 (
            "Unable to retrieve "
            ^^ (name ^^ (" from cluster " ^^ (cluster ^^ ", cluster not found"))))))

  -- the URL, with the version of the agent or without it
  unfoldable pub agent_url : Bool → String → String → Exec S String
  agent_url true cluster query = do
    first ← agent cluster
    second ← agent cluster
    pure (first.url ^^ ("/v" ^^ (env.format second.version ^^ ("/" ^^ query))))
  agent_url false cluster query = do first ← agent cluster; pure (first.url ^^ ("/" ^^ query))

  -- request_agent
  unfoldable pub request_agent : String → String → Option String → Bool → Exec S AgentRequest
  unfolding with_query prepare
  request_agent cluster query token with_version = do
    url ← agent_url with_version cluster query
    lift (prepare request (with_query url request) token)

  pub answer : String → Bool → Response → Result Reply
  answer cluster true response = elim response.document [
    | none ↦ raised (http_error 500 ("Unsupported Content-Type for agent " ^^ cluster))
    | some document ↦ ok (json document response.status)
  ]
  answer cluster false response = ok (raw response.content response.status response.content_type)

  -- async_proxy_agent
  unfoldable pub proxy_agent : String → String → Option String → Bool → Bool → Exec S Reply
  unfolding answer
  proxy_agent cluster query token is_json with_version = do
    sent ← request_agent cluster query token with_version
    response ← env.enter sent
    lift (answer cluster is_json response)

  -- The views that relay.
  unfoldable pub view : String → View → Exec S Reply
  unfolding query_of name_of
  view cluster v =
      validate_cluster (name_of v) cluster
        (proxy_agent cluster (query_of v) (some request.token) (as_json v) true)

  -- racksdb(), which asks for the version of RacksDB of the agent
  unfoldable pub racksdb : String → String → Exec S Reply
  racksdb cluster query = validate_cluster "racksdb" cluster (
      agent cluster >>= λ a.
      proxy_agent cluster ("racksdb/v" ^^ (env.format a.racksdb.version ^^ ("/" ^^ query)))
        (some request.token) false false)

-- The answer of clusters() for one cluster.
pub record Cluster : Type 0 where
  pub name : Value
  pub racksdb : Value
  pub infrastructure : Value
  pub metrics : Value
  pub cache : Value
  pub jobs_max_hours : Value
  pub permissions : Value

abbrev pub cluster_of : SlurmwebAgent → Value → Cluster
cluster_of agent permissions = record {
  name = agent.cluster;
  racksdb = agent.racksdb.enabled;
  infrastructure = agent.racksdb.infrastructure;
  metrics = agent.metrics;
  cache = agent.cache;
  jobs_max_hours = agent.jobs_max_hours;
  permissions = permissions;
}

-- the part of get_cluster that follows the permissions
unfoldable pub shown_cluster : Bool → SlurmwebAgent → Value → Result (Option Cluster)
shown_cluster hide_denied agent permissions = getitem permissions "actions" >>>= λ actions.
    is_empty actions >>>= λ nothing.
    ok (if nothing && hide_denied then none else some (cluster_of agent permissions))

-- response.json() raises a ContentTypeError where there is no document
unfoldable pub read_permissions : Bool → SlurmwebAgent → Response → Result (Option Cluster)
read_permissions hide_denied agent response =
    if eqb response.status 200
    then elim response.document [
      | none ↦ raised (other_error "ContentTypeError")
      | some permissions ↦ shown_cluster hide_denied agent permissions
    ]
    else ok none

module _ {S : Type 0} (env : Env S) (request : Request) (hide_denied : Bool) where
  -- get_cluster, for an agent under its name
  unfoldable pub get_cluster : String → SlurmwebAgent → Exec S (Option Cluster)
  get_cluster cluster a = do
    sent ← request_agent env request cluster "permissions" (some request.token) true
    response ← env.enter sent
    lift (read_permissions hide_denied a response)

  abbrev pub add_cluster : Option Cluster → List Cluster → List Cluster
  add_cluster none clusters = clusters
  add_cluster (some c) clusters = c ∷ clusters

  -- get_clusters, one agent after the other
  unfoldable pub get_clusters : Dict SlurmwebAgent → Exec S (List Cluster)
  get_clusters [] = pure []
  get_clusters ((cluster, a) ∷ agents) = do
    found ← get_cluster cluster a
    rest ← get_clusters agents
    pure (add_cluster found rest)

  -- clusters()
  unfoldable pub clusters : Exec S (List Cluster)
  clusters = do known ← env.agents; get_clusters known
