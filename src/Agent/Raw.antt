-- ===== src/Agent/Raw.antt =====
-- slurmweb/views/agent.py, _raw_log_response(): the whole output file of a job.
pub mod Whole
pub mod Tests
use slurm_web.Base.{
  ℕ, zero, suc, String, Bool, true, false, Option, none, some, List, [], ◌∷◌, take, drop, show,
  ◌^^◌, if◌then◌else◌, not,
}
use slurm_web.Py.Value.{Value, truthy}
use slurm_web.Py.Error.{http_error}
use slurm_web.Py.Result.{Result, ok, raised, ◌>>=◌}
use slurm_web.Py.Ops.{as_str}
use slurm_web.Agent.Logs.{Files, Parts, log_path, managed_job_log}

-- The loop of generate(), with the content that is left to read and a number of turns; none is a
-- loop that has not ended.
unfoldable pub blocks : ℕ → List ℕ → Option (List (List ℕ))
blocks zero content = none
blocks (suc n) [] = some []
blocks (suc n) (b ∷ content) = elim (blocks n (drop 65535 content)) [
  | none ↦ none
  | some rest ↦ some ((b ∷ take 65535 content) ∷ rest)
]

pub record Download : Type 0 where
  pub content : List ℕ
  pub filename : String

pub download : ℕ → String → Option (List ℕ) → Result Download
download job stream none = raised (http_error 404 "Job output file does not exist")
download job stream (some content) =
    ok
      (record { content = content; filename = "job-" ^^ (show job ^^ ("-" ^^ (stream ^^ ".log"))) })

-- _raw_log_response, up to the stream of the content
pub raw_log_response : Files → List Parts → ℕ → Value → String → Result Download
raw_log_response files roots job job_data stream = do
  path ← log_path job_data stream
  if not (truthy path)
      then raised (http_error 404 "Job output path is not known yet")
      else (as_str path >>= λ name.
          managed_job_log files roots name >>= λ output. download job stream (files.content output))
