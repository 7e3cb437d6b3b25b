-- ===== src/Slurmrestd/Filtered.antt =====
-- slurmweb/slurmrestd/__init__.py, the class SlurmrestdFiltered and the methods of Slurmrestd that
-- it extends: what the agent takes from slurmrestd, reduced to the selected fields.
pub mod Selected
pub mod Tests
use slurm_web.Base.{
  ℕ, String, ◌≡◌, Bool, true, false, Option, none, some, List, [], ◌∷◌, ◌==◌, if◌then◌else◌, ◌^^◌,
  Dict, elem, remove, keys, update, show, codes, starts_with, ℤ, pos, eqb_ℤ,
}
use slurm_web.Py.Value.{
  Value, null, boolean, int, str, list, dict, Items, nil, cons, fields_of, of_fields,
}
use slurm_web.Py.Error.{Exn, internal_error, index_error, not_found, type_error, attribute_error}
use slurm_web.Py.Result.{Result, ok, raised}
use slurm_web.Py.Ops.{first}
use slurm_web.Py.Exec.{Exec, lift, pure, raise, gets, try_except, ◌>>=◌, ◌>>◌}
use slurm_web.Slurmrestd.Adapters.{for_each}
use slurm_web.Slurmrestd.Jobs.{past_jobs_query_params}
use slurm_web.Slurmrestd.Client.{Client, Net, Params, request}

abbrev pub Selection : Type 0
Selection = Option (List String)

-- the loop of filter_item_fields over a copy of the keys
unfoldable pub delete_keys : List String → List String → Dict Value → Dict Value
delete_keys selection [] d = d
delete_keys selection (k ∷ ks) d =
    delete_keys selection ks (if elem k selection then d else remove d k)

unfoldable pub filter_item_fields : List String → Value → Result Value
unfolding delete_keys
filter_item_fields selection (dict fs) =
    ok (dict (of_fields (delete_keys selection (keys (fields_of fs)) (fields_of fs))))
filter_item_fields selection v = raised attribute_error

unfoldable pub filter_fields : Value → Selection → Result Value
unfolding filter_item_fields for_each
filter_fields items none = ok items
filter_fields (list vs) (some selection) = for_each (filter_item_fields selection) (list vs)
filter_fields items (some selection) = filter_item_fields selection items

-- The settings of the filters.
pub record Filters : Type 0 where
  pub jobs : Selection
  pub jobs_dbd : Selection
  pub ctldjob : Selection
  pub acctjob : Selection
  pub nodes : Selection
  pub node : Selection
  pub partitions : Selection
  pub accounts : Selection
  pub associations : Selection
  pub reservations : Selection
  pub qos : Selection

-- a.update(b), where b is an object or an empty collection
unfoldable pub update_value : Value → Value → Result Value
update_value (dict a) (dict b) = ok (dict (of_fields (update (fields_of a) (fields_of b))))
update_value (dict a) (list nil) = ok (dict a)
update_value (dict a) (str s) = if s == "" then ok (dict a) else raised Exn.value_error
update_value (dict a) b = raised type_error
update_value a b = raised attribute_error

-- The handlers of job() and node().
pub missing_job : ℕ → Exn → Exn
missing_job job_id index_error = not_found ("Job " ^^ (show job_id ^^ " not found"))
missing_job job_id e = e

-- err.error != 2017
pub is_not_queued : Exn → Bool
is_not_queued (internal_error message (int n) description source) = eqb_ℤ n (pos 2017)
is_not_queued e = false

pub missing_node : String → Exn → Exn
missing_node node_name (internal_error message error (str description) source) =
    if starts_with (codes "Failure to query node ") (codes description)
    then not_found ("Node " ^^ (node_name ^^ " not found"))
    else internal_error message error (str description) source
missing_node node_name (internal_error message error description source) = attribute_error
missing_node node_name e = e

module _ {W : Type 0} (net : Net W) (filters : Filters) where
  abbrev filtered : Exec (Client W) Value → Selection → Exec (Client W) Value
  filtered m selection = do items ← m; lift (filter_fields items selection)

  -- a list of the API under its own name
  abbrev listed : String → String → Exec (Client W) Value
  listed component key = request net component key key false []

  unfoldable pub jobs : Exec (Client W) Value
  jobs = filtered (listed "slurm" "jobs") filters.jobs

  -- int(time.time()) of _past_jobs_query_params
  abbrev now : Exec (Client W) ℕ
  now c = (ok (net.tokens.clock c.world), record c { world = net.tokens.tick c.world })

  unfoldable pub jobs_past : ℕ → Exec (Client W) Value
  jobs_past hours = do
    t ← now
    filtered (request net "slurmdb" "jobs" "jobs" false (past_jobs_query_params t hours))
        filters.jobs_dbd

  unfoldable pub ctldjob : ℕ → Bool → Exec (Client W) Value
  ctldjob job_id ignore_notfound = do
    found ← request net "slurm" ("job/" ^^ show job_id) "jobs" ignore_notfound []
    job ← lift (first found)
    lift (filter_fields job filters.ctldjob)

  unfoldable pub acctjob : ℕ → Exec (Client W) Value
  acctjob job_id = do
    found ← request net "slurmdb" ("job/" ^^ show job_id) "jobs" false []
    job ← lift (first found)
    lift (filter_fields job filters.acctjob)

  -- `except SlurmrestdInternalError` of job()
  abbrev keep_queued : Value → Exn → Exec (Client W) Value
  keep_queued result e = if is_not_queued e then pure result else raise e

  unfoldable pub enrich : ℕ → Value → Exec (Client W) Value
  enrich job_id result =
      try_except (do queued ← ctldjob job_id true; lift (update_value result queued))
        (keep_queued result)

  unfoldable pub job : ℕ → Exec (Client W) Value
  unfolding enrich
  job job_id = do
    result ← try_except (acctjob job_id) (λ e. raise (missing_job job_id e))
    enrich job_id result

  unfoldable pub nodes : Exec (Client W) Value
  nodes = filtered (listed "slurm" "nodes") filters.nodes

  unfoldable pub node : String → Exec (Client W) Value
  node node_name =
      filtered
        (try_except
          (do
            found ← request net "slurm" ("node/" ^^ node_name) "nodes" false []
            lift (first found))
          (λ e. raise (missing_node node_name e)))
        filters.node

  unfoldable pub partitions : Exec (Client W) Value
  partitions = filtered (listed "slurm" "partitions") filters.partitions

  unfoldable pub accounts : Exec (Client W) Value
  accounts = filtered (listed "slurmdb" "accounts") filters.accounts

  unfoldable pub associations : Exec (Client W) Value
  associations = filtered (listed "slurmdb" "associations") filters.associations

  unfoldable pub reservations : Exec (Client W) Value
  reservations = filtered (listed "slurm" "reservations") filters.reservations

  unfoldable pub qos : Exec (Client W) Value
  qos = filtered (listed "slurmdb" "qos") filters.qos
