-- ===== src/Slurmrestd/Cached/Tests.antt =====
-- The cached client on the server in memory.
use Prim.Native.Char.{code}
use text.Mathlib.TextLemmas.{cons-append, head-eq_of_cons-eq}
use slurm_web.Base.{
  get, ℕ, String, ◌≡◌, ◌≢◌, refl, Bool, true, false, Option, none, some, List, [], ◌∷◌, arith,
  eq_iff, ap, ◌∙◌,
}
use slurm_web.Py.Value.{Value, str, null}
use slurm_web.Py.Error.{connection_error}
use slurm_web.Py.Result.{ok}
use slurm_web.Py.Exec.{Exec, pure, raise}
use slurm_web.Cache.{CacheKey, pickled}
use slurm_web.Cache.Memory.{Memory, memory, memory_server}
use slurm_web.Cache.Statistics.{IsNumeric, value, counter_key}
use slurm_web.Slurmrestd.Client.{Client}
use slurm_web.Slurmrestd.Cached.{cached}
use slurm_web.Slurmrestd.Cached.Answers.{IsDataKey, cached-twice}

abbrev qos_key : CacheKey
qos_key = record { main = "qos"; count = "qos" }

abbrev client : Memory → Client Memory
client m = record {
  prefix = "http://localhost:6820";
  auth = record {
    method = "local";
    jwt_mode = "auto";
    jwt_user = "slurm";
    jwt_key = "";
    jwt_lifespan = 3600;
    jwt_token = none;
    expiration = none;
    has_manager = false;
  };
  supported_versions = "0.0.44" ∷ [];
  cluster_name = null;
  slurm_version = null;
  api_version = none;
  adaptation_chain = [];
  world = m;
}

abbrev empty : Memory
empty = record { values = []; sets = [] }

abbrev filled : Memory
filled = record { values = ("qos", pickled (str "data")) ∷ []; sets = [] }

apart : (b : Bool) (c : String) → qos_key.main ≢ counter_key b c
apart true c h =
    let heads = head-eq_of_cons-eq (h ∙ cons-append "c" "ache-hit-" c) in
    let e = ap code heads in ground arith
apart false c h =
    let heads = head-eq_of_cons-eq (h ∙ cons-append "c" "ache-miss-" c) in
    let e = ap code heads in ground arith

qos_key-IsDataKey : IsDataKey memory_server qos_key
qos_key-IsDataKey = record {
  no_set = refl;
  no_counter = apart;
  countable = (λ e. ground (arith, eq_iff "qos" "total"), λ e. ground (arith, eq_iff "qos" "keys"));
}

empty-IsNumeric : IsNumeric memory_server empty
unfolding memory_server slurm_web.Base.get value
empty-IsNumeric b c = refl

filled-IsNumeric : IsNumeric memory_server filled
unfolding memory_server value get
filled-IsNumeric b c =
    let e : get filled.values (counter_key b c) ≡ none =
      ground (arith, eq_iff "qos" (counter_key b c), apart b c) in
    rw e refl

not_null : str "data" ≢ null
not_null e = cc

fails : Exec (Client Memory) Value
fails = raise (connection_error "down")

-- the second call would fail without the cache
cached-twice_example :
    ((cached memory true qos_key 60 (pure (str "data")) (client empty)).0 ≡ ok (str "data"))
    × ((cached memory true qos_key 60 fails
          (cached memory true qos_key 60 (pure (str "data")) (client empty)).1).0
        ≡ ok (str "data"))
unfolding memory_server slurm_web.Base.get
cached-twice_example =
    cached-twice memory_server qos_key 60 (pure (str "data")) fails (str "data") (client empty)
      (client empty) not_null qos_key-IsDataKey refl refl empty-IsNumeric
