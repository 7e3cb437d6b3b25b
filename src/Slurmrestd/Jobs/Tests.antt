-- ===== src/Slurmrestd/Jobs/Tests.antt =====
-- Counts and selections of a few jobs.
use slurm_web.Base.{
  ℕ, String, ◌≡◌, refl, Bool, true, false, Option, none, some, List, [], ◌∷◌, ◌==◌, Dict, Sieve,
  length, keys, get, or_else,
}
use slurm_web.Py.Value.{Value, Fields, str, list, dict, cons, nil, field, end}
use slurm_web.Py.Result.{Result, ok}
use slurm_web.Slurmrestd.Jobs.{
  base_states, has_terminal_state, current, on_node, by_node, jobs_states, past_jobs_query_params,
}
use slurm_web.Slurmrestd.Jobs.States.{sum, tally, jobs_states_counts}

abbrev job : String → String → Value
job state nodes =
    dict (field "job_state" (list (cons (str state) nil)) (field "nodes" (str nodes) end))

abbrev three_jobs : List Value
three_jobs = job "RUNNING" "cn1" ∷ job "COMPLETED" "cn2" ∷ job "RESV_DEL_HOLD" "" ∷ []

abbrev counts : Dict ℕ
counts =
    ("running", 1)
    ∷ ("pending", 0)
    ∷ ("completing", 0)
    ∷ ("completed", 1)
    ∷ ("cancelled", 0)
    ∷ ("suspended", 0)
    ∷ ("preempted", 0)
    ∷ ("failed", 0)
    ∷ ("timeout", 0)
    ∷ ("node_fail", 0)
    ∷ ("boot_fail", 0)
    ∷ ("deadline", 0)
    ∷ ("out_of_memory", 0)
    ∷ ("unknown", 1)
    ∷ []

counted : jobs_states three_jobs ≡ ok (counts, 3)
unfolding jobs_states slurm_web.Slurmrestd.Jobs.count_jobs slurm_web.Slurmrestd.Jobs.first_state
    keys slurm_web.Py.Ops.getitem get slurm_web.Py.Value.fields_of slurm_web.Py.Ops.contains
    slurm_web.Py.Value.items_of slurm_web.Py.Value.equals_str slurm_web.Base.upper
    slurm_web.Slurmrestd.Jobs.bump slurm_web.Base.put
counted = refl

jobs_states_counts_example :
    (3 ≡ length three_jobs)
    × (sum counts ≡ 3)
    × (keys counts ≡ base_states)
    × ((k : String) → or_else (get counts k) 0 ≡ tally base_states k three_jobs)
jobs_states_counts_example = jobs_states_counts three_jobs counts 3 counted

abbrev current_jobs : List Value
current_jobs = job "RUNNING" "cn1" ∷ job "RESV_DEL_HOLD" "" ∷ []

still_current : current three_jobs ≡ ok current_jobs
unfolding current slurm_web.Slurmrestd.Jobs.select has_terminal_state slurm_web.Py.Ops.get_default
    slurm_web.Py.Ops.iterate get slurm_web.Py.Value.fields_of slurm_web.Py.Value.items_of
    slurm_web.Py.Value.equals_str
still_current = refl

abbrev in_set : String → String → Result Bool
in_set node nodes = ok (node == nodes)

on_cn1 : by_node in_set "cn1" current_jobs ≡ ok (job "RUNNING" "cn1" ∷ [])
unfolding by_node slurm_web.Slurmrestd.Jobs.select on_node slurm_web.Py.Ops.getitem get
    slurm_web.Py.Value.fields_of
on_cn1 = refl
