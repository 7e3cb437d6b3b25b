-- ===== src/Slurmrestd/Client.antt =====
-- slurmweb/slurmrestd/__init__.py, the classes Slurmrestd and SlurmrestdAdapter: requests to
-- slurmrestd and the discovery of its API version.
pub mod Discovery
pub mod Requests
pub mod Tests
use slurm_web.Base.{
  ℕ, String, ◌≡◌, Bool, true, false, Option, none, some, List, [], ◌∷◌, ◌==◌, ◌&&◌, ◌||◌, not,
  if◌then◌else◌, ◌^^◌, Dict, is_some,
}
use slurm_web.Py.Value.{Value, null, str, list, dict}
use slurm_web.Py.Error.{
  Exn, connection_error, authentication_error, not_found, invalid_response, internal_error,
  configuration_error, key_error, index_error, value_error, type_error, other_error,
}
use slurm_web.Py.Result.{Result, ok, raised}
use slurm_web.Py.Ops.{getitem, get_default, contains, is_empty, first}
use slurm_web.Py.Exec.{Exec, lift, pure, raise, gets, modify, try_except, ◌>>=◌, ◌>>◌}
use slurm_web.Slurmrestd.Auth
use slurm_web.Slurmrestd.Auth.{Tokens, Authentifier}
use slurm_web.Slurmrestd.Adapters.{Adapter, build_adaptation_chain, run_chain}
use slurm_web.Slurmrestd.Response.{Response, read_response}

abbrev pub Params : Type 0
Params = List (String × String)

-- What session.get() sends.
pub record Request : Type 0 where
  pub url : String
  pub headers : Dict (Option String)
  pub params : Params

-- What it gives back: a response, requests' ConnectionError, or another exception of requests.
pub data Outcome : Type 0 where
  answered : Response → Outcome
  unreachable failed : String → Outcome

-- The requests library, beside what the authentication takes from outside.
pub record Net (W : Type 0) : Type 0 where
  pub tokens : Tokens W
  pub http_get : Request → W → Outcome × W

-- The object, and the world that it acts on. None is the value of the attributes that discover()
-- has not set.
pub record Client (W : Type 0) : Type 0 where
  pub prefix : String
  pub auth : Authentifier
  pub supported_versions : List String
  pub cluster_name : Value
  pub slurm_version : Value
  pub api_version : Option String
  pub adaptation_chain : List Adapter
  pub world : W

-- __init__ of Slurmrestd and SlurmrestdAdapter, on the scheme of the URI and its text
unfoldable pub init :
    {W : Type 0} → (scheme url : String) → Authentifier → List String → W → Result (Client W)
init scheme url auth supported_versions w =
    if auth.method == "local" && not (scheme == "unix")
    then raised (
        configuration_error
          "slurmrestd local authentication is only supported with unix socket URI")
    else ok (record {
      prefix = if scheme == "unix" then "http+unix://slurmrestd" else url;
      auth = auth;
      supported_versions = supported_versions;
      cluster_name = null;
      slurm_version = null;
      api_version = none;
      adaptation_chain = [];
      world = w;
    })

-- v is not None
abbrev pub present : Value → Bool
present null = false
present v = true

-- f"/{component}/v{api_version}/{endpoint}"
abbrev pub query_path : String → String → String → String
query_path component api_version endpoint =
    "/" ^^ (component ^^ ("/v" ^^ (api_version ^^ ("/" ^^ endpoint))))

-- str() of an attribute that may be None
abbrev pub text_of : Option String → String
text_of none = "None"
text_of (some s) = s

-- What discover() skips a version for. Every other exception leaves it.
unfoldable pub is_skipped : Exn → Bool
is_skipped (not_found _) = true
is_skipped (invalid_response _) = true
is_skipped (internal_error _ _ _ _) = true
is_skipped (key_error _) = true
is_skipped value_error = true
is_skipped _ = false

-- The chain that discover() sets: None is no version of the list, and gives an empty chain.
abbrev pub chain_to : Option String → String → List String → List Adapter
chain_to none target supported = []
chain_to (some version) target supported =
    if version == target then [] else build_adaptation_chain version target supported

-- supported_versions[0]
abbrev pub target_of : List String → String
target_of [] = ""
target_of (target ∷ rest) = target

-- ', '.join(versions)
abbrev pub joined : List String → String
joined [] = ""
joined (version ∷ []) = version
joined (version ∷ next ∷ rest) = version ^^ (", " ^^ joined (next ∷ rest))

abbrev or_reraise : {S A : Type 0} → Bool → Exn → Exec S A → Exec S A
or_reraise true e m = m
or_reraise false e m = raise e

module _ {W : Type 0} (net : Net W) where
  -- self.auth.headers()
  unfoldable pub auth_headers : Exec (Client W) (Dict (Option String))
  auth_headers c =
      let (r, (a, w)) = Auth.headers net.tokens (c.auth, c.world) in
      (r, record c { auth = a; world = w })

  unfoldable pub answer : Bool → Outcome → Result Value
  answer ignore_notfound (answered response) = read_response response ignore_notfound
  answer ignore_notfound (unreachable message) = raised (connection_error message)
  answer ignore_notfound (failed message) = raised (other_error message)

  unfoldable pub send : Request → Bool → Exec (Client W) Value
  unfolding answer
  send request ignore_notfound c =
      let (outcome, w) = net.http_get request c.world in
      (answer ignore_notfound outcome, record c { world = w })

  -- _execute_request
  unfoldable pub execute_request :
      (component api_version endpoint : String) → Bool → Params → Exec (Client W) Value
  unfolding auth_headers send
  execute_request component api_version endpoint ignore_notfound params = do
    prefix ← gets (λ c. c.prefix)
    headers ← auth_headers
    send
        (record {
          url = prefix ^^ query_path component api_version endpoint;
          headers = headers;
          params = params;
        })
        ignore_notfound

  -- the assignments of discover(), the first of which stays if the second key is missing
  unfoldable pub adopt : String → Value → Exec (Client W) Unit
  adopt version result = do
    meta ← lift (getitem result "meta")
    slurm ← lift (getitem meta "slurm")
    cluster ← lift (getitem slurm "cluster")
    modify (λ c. record c { cluster_name = cluster })
    meta' ← lift (getitem result "meta")
    slurm' ← lift (getitem meta' "slurm")
    release ← lift (getitem slurm' "release")
    modify (λ c. record c { slurm_version = release; api_version = some version })

  unfoldable pub try_version : String → Exec (Client W) Unit
  try_version version = do
    result ← execute_request "slurm" version "ping" true []
    adopt version result

  -- the loop over the supported versions, with all of them for the message of its end
  unfoldable pub try_versions : List String → List String → Exec (Client W) Unit
  try_versions tried [] = raise (
      connection_error
        ("Unable to discover slurmrestd API version. Tried versions: " ^^ joined tried))
  try_versions tried (version ∷ rest) =
      let next = try_versions tried rest in
      try_except (try_version version) (λ e. or_reraise (is_skipped e) e next)

  abbrev pub is_discovered : Client W → Bool
  is_discovered c = present c.cluster_name && present c.slurm_version && is_some c.api_version

  abbrev discover_if : Bool → Exec (Client W) Unit
  discover_if true = pure tt
  discover_if false = do versions ← gets (λ c. c.supported_versions); try_versions versions versions

  -- discover() of Slurmrestd
  unfoldable pub base_discover : Exec (Client W) (Value × Value × Option String)
  base_discover = do
    known ← gets is_discovered
    discover_if known
    gets (λ c. (c.cluster_name, c.slurm_version, c.api_version))

  abbrev pub first_version : List String → Exec (Client W) String
  first_version [] = raise index_error
  first_version (target ∷ rest) = pure target

  -- discover() of SlurmrestdAdapter
  unfoldable pub discover : Exec (Client W) (Value × Value × Option String)
  discover = do
    result ← base_discover
    supported ← gets (λ c. c.supported_versions)
    target ← first_version supported
    modify (λ c. record c { adaptation_chain = chain_to c.api_version target supported })
    pure result

  unfoldable pub ensure : Option String → Exec (Client W) Unit
  ensure none = discover >> pure tt
  ensure (some version) = pure tt

  -- _request() of Slurmrestd
  unfoldable pub base_request :
      (component endpoint key : String) → Bool → Params → Exec (Client W) Value
  base_request component endpoint key ignore_notfound params = do
    version ← gets (λ c. c.api_version)
    ensure version
    api_version ← gets (λ c. text_of c.api_version)
    result ← execute_request component api_version endpoint ignore_notfound params
    lift (getitem result key)

  -- _request() of SlurmrestdAdapter
  unfoldable pub request : (component endpoint key : String) → Bool → Params → Exec (Client W) Value
  request component endpoint key ignore_notfound params = do
    result ← base_request component endpoint key ignore_notfound params
    chain ← gets (λ c. c.adaptation_chain)
    lift (run_chain chain component key result)
