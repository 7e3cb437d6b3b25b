-- ===== src/Agent/Logs/Tests.antt =====
-- A small output file.
use slurm_web.Base.{◌≡◌, refl, some, List, [], ◌∷◌, ◌==◌, if◌then◌else◌}
use slurm_web.Py.Error.{http_error}
use slurm_web.Py.Result.{ok, raised}
use slurm_web.Agent.Logs.{Files, Parts, managed_job_log}
use slurm_web.Agent.Logs.Polling.{Following}

abbrev followed : Following
followed = record { content = 10 ∷ 20 ∷ 30 ∷ []; received = 10 ∷ 20 ∷ 30 ∷ []; offset = 3 }

-- the client polls twice, and the job writes a third byte in between
abbrev before : Following
before = record { content = 10 ∷ 20 ∷ []; received = []; offset = 0 }

abbrev files : Files
files = record {
  resolve =
      λ path. if path == "/data/jobs/1.out" then "data" ∷ "jobs" ∷ "1.out" ∷ [] else "etc" ∷ [];
  content = λ output. some (10 ∷ 20 ∷ []);
  show_path = λ output. "";
}

abbrev roots : List Parts
roots = ("data" ∷ "jobs" ∷ []) ∷ []

managed : managed_job_log files roots "/data/jobs/1.out" ≡ ok ("data" ∷ "jobs" ∷ "1.out" ∷ [])
unfolding managed_job_log
managed = refl

outside :
    managed_job_log files roots "/data/jobs/../../etc/shadow"
    ≡ raised (http_error 403 "Job output is outside managed log roots")
unfolding managed_job_log
outside = refl
