-- ===== src/Agent/Diagnostics/Tests.antt =====
-- A job that ran out of time.
use slurm_web.Base.{String, ◌≡◌, ◌≢◌, refl, Option, none, List, [], ◌∷◌}
use slurm_web.Py.Value.{Value, str, list, dict, nil, cons, field, end}
use slurm_web.Py.Result.{Result, ok}
use slurm_web.Agent.Excerpt.{Excerpt}
use slurm_web.Agent.Diagnostics.{job_diagnostics, states_of}
use slurm_web.Agent.Diagnostics.Failures.{job_diagnostics-ne-none}

abbrev states : Value
states = list (cons (str "COMPLETING") (cons (str "TIMEOUT") nil))

abbrev job_data : Value
job_data = dict (field "state" (dict (field "current" states end)) end)

abbrev no_excerpt : Value → Result (Option Excerpt)
no_excerpt v = ok none

its_states : states_of job_data ≡ ok states
unfolding states_of slurm_web.Py.Ops.get_default slurm_web.Base.get slurm_web.Py.Value.fields_of
its_states = refl

job_diagnostics-ne-none_example : job_diagnostics no_excerpt job_data ≢ ok none
unfolding slurm_web.Slurmrestd.Jobs.is_terminal slurm_web.Py.Ops.iterate slurm_web.Py.Value.items_of
    slurm_web.Py.Value.equals_str
job_diagnostics-ne-none_example =
    job_diagnostics-ne-none no_excerpt job_data states (str "COMPLETING" ∷ str "TIMEOUT" ∷ [])
      its_states refl refl
