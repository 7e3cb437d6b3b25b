-- ===== src/Agent/Logs.antt =====
-- slurmweb/views/agent.py: the chunks of a job's output file.
pub mod Polling
pub mod Tests
use slurm_web.Base.{
  ℕ, ◌+◌, String, ◌≡◌, Bool, true, false, Option, none, some, List, [], ◌∷◌, ◌==◌, ◌&&◌, ◌||◌, not,
  if◌then◌else◌, any, length, take, drop, ltb, max, min, ℤ, to_ℕ, parse_int, codes, eqb, ◌^^◌, elem,
}
use slurm_web.Py.Value.{Value, str, list, dict, nil, end, Fields, truthy}
use slurm_web.Py.Error.{Exn, http_error}
use slurm_web.Py.Result.{Result, ok, raised, ◌>>=◌}
use slurm_web.Py.Ops.{get_default, contains, as_str}

-- The parts of an absolute path.
abbrev pub Parts : Type 0
Parts = List String

-- candidate == root or root in candidate.parents
abbrev pub is_under : Parts → Parts → Bool
is_under [] candidate = true
is_under (p ∷ root) [] = false
is_under (p ∷ root) (q ∷ candidate) = p == q && is_under root candidate

-- The files, as pathlib gives them: where a path leads to, and the bytes that are there.
pub record Files : Type 0 where
  pub resolve : String → Parts
  pub content : Parts → Option (List ℕ)
  pub show_path : Parts → String

-- What _read_log_chunk returns; a file that is not there has neither size nor rotation. The chunk is
-- kept in bytes, which the source decodes.
pub record Chunk : Type 0 where
  pub path : String
  pub chunk : List ℕ
  pub offset : ℕ
  pub next_offset : ℕ
  pub size : Option ℕ
  pub rotated : Bool
  pub waiting : Bool

abbrev or_stdout : Bool → Value → Value → Result Value
or_stdout true job_data path = get_default job_data "stdout_expanded" (str "")
or_stdout false job_data path = ok path

-- _log_path
unfoldable pub log_path : Value → String → Result Value
log_path job_data stream = do
  path ← get_default job_data (stream ^^ "_expanded") (str "")
  or_stdout (not (truthy path) && stream == "stderr") job_data path

-- Path(path) takes a text only.
abbrev path_text : Value → Result String
path_text (str s) = ok s
path_text v = raised Exn.type_error

-- _managed_job_log
unfoldable pub managed_job_log : Files → List Parts → String → Result Parts
managed_job_log files roots path =
    if any (λ root. is_under root (files.resolve path)) roots
    then ok (files.resolve path)
    else raised (http_error 403 "Job output is outside managed log roots")

-- "RUNNING" in job_data.get("state", {}).get("current", [])
pub is_running : Value → Result Bool
is_running job_data = do
  state ← get_default job_data "state" (dict end)
  states ← get_default state "current" (list nil)
  contains "RUNNING" states

-- the bytes that follow the offset, from the start if the file is shorter by now
pub read_from : String → List ℕ → ℕ → ℕ → Bool → Chunk
read_from path content offset limit running =
    let rotated = ltb (length content) offset in
    let start = if rotated then 0 else offset in
    let chunk = take limit (drop start content) in
    record {
      path = path;
      chunk = chunk;
      offset = start;
      next_offset = start + length chunk;
      size = some (length content);
      rotated = rotated;
      waiting = running;
    }

abbrev pub nothing_yet : String → ℕ → Chunk
nothing_yet path offset = record {
  path = path;
  chunk = [];
  offset = offset;
  next_offset = offset;
  size = none;
  rotated = false;
  waiting = true;
}

pub read_output : Files → Parts → ℕ → ℕ → Bool → Chunk
read_output files output offset limit running = elim (files.content output) [
  | none ↦ nothing_yet (files.show_path output) offset
  | some content ↦ read_from (files.show_path output) content offset limit running
]

-- the part that follows `if not path`
pub read_managed : Files → List Parts → Value → ℕ → ℕ → Bool → Result Chunk
read_managed files roots path offset limit running = do
  name ← path_text path
  output ← managed_job_log files roots name
  ok (read_output files output offset limit running)

abbrev when_known : Bool → Result Chunk → Result Chunk
when_known true read = read
when_known false read = ok (nothing_yet "" 0)

-- _read_log_chunk
pub read_log_chunk : Files → List Parts → Value → String → ℕ → ℕ → Result Chunk
read_log_chunk files roots job_data stream offset limit = do
  path ← log_path job_data stream
  running ← is_running job_data
  when_known (truthy path) (read_managed files roots path offset limit running)

-- The parameters of job_log: `max(0, int(...))` and `max(1024, min(262144, int(...)))`.
pub chunk_window : String → String → Result (ℕ × ℕ)
chunk_window offset limit = elim (parse_int (codes offset)) [
  | none ↦ raised (http_error 400 "offset and limit must be integers")
  | some n ↦ elim (parse_int (codes limit)) [
    | none ↦ raised (http_error 400 "offset and limit must be integers")
    | some m ↦ ok (to_ℕ n, max 1024 (min 262144 (to_ℕ m)))
  ]
]
