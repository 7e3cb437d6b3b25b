-- ===== src/Agent/Gpus.antt =====
-- slurmweb/views/agent.py, _gpu_telemetry(): the GPU of a job. Times are in milliseconds, and what the
-- source rounds to one decimal is in tenths.
pub mod Tests
use slurm_web.Base.{
  ℕ, ◌+◌, String, Bool, true, false, Option, none, some, List, [], ◌∷◌, ◌++◌, ◌&&◌, ◌||◌, not, ℤ,
  pos, ltb_ℤ, ◌+ℤ◌, ◌-ℤ◌, length, codes, split, any, same, eqb, show, if◌then◌else◌, elem,
}
use slurm_web.Py.Value.{Value, str, int, boolean, list, nil, of_items}
use slurm_web.Py.Result.{Result, ok, raised, ◌>>=◌}
use slurm_web.Py.Ops.{get_default, setitem, contains, iterate, as_int, as_str}

pub record GpuSummary : Type 0 where
  pub count : ℕ
  pub utilization : ℤ
  pub memory_used_mb : ℤ
  pub memory_total_mb : ℤ
  pub power_watts : ℤ
  pub temperature_max : ℤ

pub record Telemetry : Type 0 where
  pub nodes : List Value
  pub summary : GpuSummary

-- s.replace("[", "").replace("]", "")
pub without_brackets : List ℕ → List ℕ
without_brackets [] = []
without_brackets (c ∷ s) =
    let rest = without_brackets s in if eqb c b'[' || eqb c b']' then rest else c ∷ rest

-- snapshot.get("node") in nodes
pub is_among : Value → List (List ℕ) → Bool
is_among (str node) nodes = any (same (codes node)) nodes
is_among v nodes = false

-- the test that skips the file of another node; `nodes` is never empty
pub is_elsewhere : String → Value → Bool
is_elsewhere nodes node =
    not (is_among node (split b',' (without_brackets (codes nodes))))
    && not (any (eqb b'[') (codes nodes))

-- [gpu for gpu in snapshot.get("gpus", []) if str(job) in gpu.get("job_ids", [])]
pub gpus_of_job : ℕ → List Value → Result (List Value)
gpus_of_job job [] = ok []
gpus_of_job job (gpu ∷ gpus) = do
  job_ids ← get_default gpu "job_ids" (list nil)
  used ← contains (show job) job_ids
  rest ← gpus_of_job job gpus
  ok (if used then gpu ∷ rest else rest)

-- A snapshot, with what the loops read of it again.
pub record Fresh : Type 0 where
  pub snapshot : Value
  pub stale : Bool
  pub gpus : List Value

abbrev is_empty : List Value → Bool
is_empty [] = true
is_empty (v ∷ vs) = false

abbrev non_negative : ℤ → ℤ
non_negative n = if ltb_ℤ n (pos 0) then pos 0 else n

-- `to_ms` is float() on a time, and `tenths n d` is round(n / d, 1).
module _ (to_ms : Value → Result ℤ) (tenths : ℤ → ℕ → ℤ) (job : ℕ) where
  -- the rest of the loop over the files, for a snapshot of a node of the job
  unfoldable pub refresh : ℕ → Value → Result Fresh
  refresh now snapshot = do
    found ← get_default snapshot "timestamp" (int (pos 0))
    timestamp ← to_ms found
    let age = tenths (non_negative (pos now -ℤ timestamp)) 1000
    aged ← setitem snapshot "age_seconds" (int age)
    let stale = ltb_ℤ (pos 80) age
    marked ← setitem aged "stale" (boolean stale)
    listed ← get_default marked "gpus" (list nil)
    gpus ← iterate listed >>= λ all. gpus_of_job job all
    final ← setitem marked "gpus" (list (of_items gpus))
    ok (record { snapshot = final; stale = stale; gpus = gpus })

  abbrev add_fresh : Fresh → List Fresh → List Fresh
  add_fresh f rest = if not (is_empty f.gpus) || not f.stale then f ∷ rest else rest

  -- the loop over the files; none is one that cannot be read or is no JSON
  unfoldable pub snapshots : ℕ → String → List (Option Value) → Result (List Fresh)
  snapshots now nodes [] = ok []
  snapshots now nodes (none ∷ files) = snapshots now nodes files
  snapshots now nodes (some snapshot ∷ files) = do
    node ← get_default snapshot "node" Value.null
    if is_elsewhere nodes node
        then snapshots now nodes files
        else (refresh now snapshot >>= λ fresh.
            snapshots now nodes files >>= λ rest. ok (add_fresh fresh rest))

  -- [gpu for snapshot in snapshots if not snapshot["stale"] for gpu in snapshot["gpus"]]
  pub current_gpus : List Fresh → List Value
  current_gpus [] = []
  current_gpus (f ∷ fs) = if f.stale then current_gpus fs else f.gpus ++ current_gpus fs

  pub sum_of : String → List Value → Result ℤ
  sum_of key [] = ok (pos 0)
  sum_of key (gpu ∷ gpus) = do
    found ← get_default gpu key (int (pos 0))
    n ← as_int found
    rest ← sum_of key gpus
    ok (n +ℤ rest)

  -- the maximum of the values and of the first argument
  pub max_of : ℤ → String → List Value → Result ℤ
  max_of n key [] = ok n
  max_of n key (gpu ∷ gpus) = do
    found ← get_default gpu key (int (pos 0))
    m ← as_int found
    max_of (if ltb_ℤ n m then m else n) key gpus

  pub max_or_zero : String → List Value → Result ℤ
  max_or_zero key [] = ok (pos 0)
  max_or_zero key (gpu ∷ gpus) = do
    found ← get_default gpu key (int (pos 0))
    m ← as_int found
    max_of m key gpus

  pub mean_of : List Value → Result ℤ
  mean_of [] = ok (pos 0)
  mean_of (gpu ∷ gpus) = do
    total ← sum_of "utilization_gpu" (gpu ∷ gpus)
    ok (tenths total (length (gpu ∷ gpus)))

  pub summarize : List Value → Result GpuSummary
  summarize gpus = do
    utilization ← mean_of gpus
    memory_used_mb ← sum_of "memory_used_mb" gpus
    memory_total_mb ← sum_of "memory_total_mb" gpus
    power ← sum_of "power_watts" gpus
    temperature_max ← max_or_zero "temperature" gpus
    ok (record {
      count = length gpus;
      utilization = utilization;
      memory_used_mb = memory_used_mb;
      memory_total_mb = memory_total_mb;
      power_watts = tenths power 1;
      temperature_max = temperature_max;
    })

  abbrev snapshot_values : List Fresh → List Value
  snapshot_values [] = []
  snapshot_values (f ∷ fs) = f.snapshot ∷ snapshot_values fs

  -- _gpu_telemetry, on the files and the time
  unfoldable pub gpu_telemetry : Value → List (Option Value) → ℕ → Result Telemetry
  gpu_telemetry job_data files now = do
    places ← get_default job_data "nodes" (str "")
    nodes ← as_str places
    found ← snapshots now nodes files
    summary ← summarize (current_gpus found)
    ok (record { nodes = snapshot_values found; summary = summary })
