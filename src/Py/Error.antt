-- ===== src/Py/Error.antt =====
-- Exceptions as values (slurmweb/errors.py, slurmweb/slurmrestd/errors.py and Python's own).
use slurm_web.Base.{ℕ, String, Option, none, some}
use slurm_web.Py.Value.{Value}

pub data Exn : Type 0 where
  -- slurmrestd/errors.py
  connection_error : String → Exn
  authentication_error : String → Exn
  not_found : String → Exn
  invalid_response : String → Exn
  internal_error : (message error description source : Value) → Exn
  -- errors.py
  runtime_error configuration_error agent_error cache_error metrics_db_error : String → Exn
  -- werkzeug's HTTPException, as flask's abort() raises it
  http_error : (code : ℕ) (description : String) → Exn
  -- live.py and simple_websocket
  live_error : (code : ℕ) (message : String) → Exn
  connection_closed : Exn
  -- Python's own
  key_error : String → Exn
  os_error : String → Exn
  index_error value_error type_error attribute_error : Exn
  -- any exception of a library that the program does not name
  other_error : String → Exn

-- what `except HTTPException` catches
abbrev pub http_of : Exn → Option (ℕ × String)
http_of (http_error code description) = some (code, description)
http_of e = none
