-- ===== src/Agent/Info.antt =====
-- slurmweb/views/agent.py, info() and permissions(): what the gateway asks an agent for on its own.
pub mod Parsed
pub mod Tests
use slurm_web.Base.{String, Bool, List, [], ◌∷◌, ℤ, map}
use slurm_web.Py.Value.{Value, boolean, str, int, list, dict, field, end, Items, nil, cons}

-- The settings and the version of the agent.
pub record Settings : Type 0 where
  pub cluster : String
  pub metrics : Bool
  pub cache : Bool
  pub racksdb_active : Bool
  pub racksdb_infrastructure : String
  pub racksdb_version : String
  pub jobs_max_hours : ℤ
  pub version : String

-- info
pub info : Settings → Value
info s = dict (
    field "cluster" (str s.cluster) (
      field "metrics" (boolean s.metrics) (
        field "cache" (boolean s.cache) (
          field "racksdb"
            (dict (
              field "enabled" (boolean s.racksdb_active) (
                field "infrastructure" (str s.racksdb_infrastructure)
                  (field "version" (str s.racksdb_version) end))))
            (field "slurmdbd" (dict (field "jobs_max_hours" (int s.jobs_max_hours) end))
              (field "version" (str s.version) end))))))

abbrev texts : List String → Items
texts [] = nil
texts (s ∷ ss) = cons (str s) (texts ss)

-- permissions, on the roles and the actions that the policy gives
pub permissions : List String × List String → Value
permissions (roles, actions) =
    dict (field "roles" (list (texts roles)) (field "actions" (list (texts actions)) end))
