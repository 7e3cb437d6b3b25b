-- ===== src/Agent/Gpus/Tests.antt =====
-- A node with two GPU, one of which the job uses, and a node of another job.
use slurm_web.Base.{ℕ, String, ◌≡◌, refl, Bool, true, Option, none, some, List, [], ◌∷◌, ℤ, pos}
use slurm_web.Py.Value.{Value, str, int, boolean, list, cons, nil, dict, field, end}
use slurm_web.Py.Result.{ok}
use slurm_web.Py.Ops.{as_int}
use slurm_web.Agent.Gpus.{GpuSummary, Telemetry, gpu_telemetry}

abbrev gpu : String → Value
gpu job =
    dict (field "job_ids" (list (cons (str job) nil)) (field "utilization_gpu" (int (pos 70)) end))

abbrev node : String → String → Value
node name job = dict (
    field "node" (str name) (
      field "timestamp" (int (pos 1000))
        (field "gpus" (list (cons (gpu job) (cons (gpu "8") nil))) end)))

abbrev job_data : Value
job_data = dict (field "nodes" (str "cn1") end)

-- a clock that stands still, and numbers that are not divided
abbrev tenths : ℤ → ℕ → ℤ
tenths n d = n

abbrev shown : Value
shown = dict (
    field "node" (str "cn1") (
      field "timestamp" (int (pos 1000)) (
        field "gpus" (list (cons (gpu "7") nil))
          (field "age_seconds" (int (pos 0)) (field "stale" (boolean Bool.false) end)))))

one_gpu :
    gpu_telemetry as_int tenths 7 job_data
      (some (node "cn1" "7") ∷ none ∷ some (node "cn2" "7") ∷ [])
      1000
    ≡ ok (record {
      nodes = shown ∷ [];
      summary = record {
        count = 1;
        utilization = pos 70;
        memory_used_mb = pos 0;
        memory_total_mb = pos 0;
        power_watts = pos 0;
        temperature_max = pos 0;
      };
    })
unfolding gpu_telemetry as_int slurm_web.Agent.Gpus.snapshots slurm_web.Agent.Gpus.is_elsewhere
    slurm_web.Agent.Gpus.is_among slurm_web.Agent.Gpus.without_brackets slurm_web.Agent.Gpus.refresh
    slurm_web.Agent.Gpus.gpus_of_job slurm_web.Agent.Gpus.current_gpus slurm_web.Agent.Gpus.max_of
    slurm_web.Agent.Gpus.max_or_zero slurm_web.Agent.Gpus.mean_of slurm_web.Agent.Gpus.sum_of
    slurm_web.Agent.Gpus.summarize slurm_web.Py.Ops.get_default slurm_web.Py.Ops.as_str
    slurm_web.Py.Ops.setitem slurm_web.Py.Ops.iterate slurm_web.Py.Ops.contains
    slurm_web.Py.Value.fields_of slurm_web.Py.Value.of_fields slurm_web.Py.Value.equals_str
    slurm_web.Py.Value.items_of slurm_web.Py.Value.of_items slurm_web.Base.get slurm_web.Base.split
    slurm_web.Base.put slurm_web.Base.show slurm_web.Base.◌+ℤ◌ slurm_web.Base.◌-ℤ◌
one_gpu = refl
