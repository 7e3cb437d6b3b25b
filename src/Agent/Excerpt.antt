-- ===== src/Agent/Excerpt.antt =====
-- slurmweb/views/agent.py: the error excerpt of a job's output. A file is the bytes that its path
-- leads to; how bytes are decoded and which lines the pattern of errors matches are arguments.
pub mod Lines
pub mod Shown
pub mod Tests
use slurm_web.Base.{
  ℕ, zero, suc, ◌+◌, ◌-◌, String, Bool, true, false, Option, none, some, List, [], ◌∷◌, ◌==◌, ◌&&◌,
  not, if◌then◌else◌, length, take, drop, ltb, eqb, codes, Text, starts_with, split, get_elem?,
  or_else,
}
use slurm_web.Py.Value.{Value, truthy, str, equals_str}
use slurm_web.Py.Error.{Exn}
use slurm_web.Py.Result.{Result, ok, raised, ◌>>=◌}
use slurm_web.Agent.Logs.{Files, Parts, log_path, managed_job_log}

-- block.count(b"\n")
abbrev pub count_lines : List ℕ → ℕ
count_lines [] = 0
count_lines (b ∷ bs) = let rest = count_lines bs in if eqb b 10 then suc rest else rest

-- handle.readline(), and what it leaves
abbrev pub first_line : List ℕ → List ℕ
first_line [] = []
first_line (b ∷ bs) = let rest = first_line bs in if eqb b 10 then b ∷ [] else b ∷ rest

abbrev pub after_line : List ℕ → List ℕ
after_line [] = []
after_line (b ∷ bs) = let rest = after_line bs in if eqb b 10 then bs else rest

-- partial.endswith(b"\n")
abbrev pub ends_line : List ℕ → Bool
ends_line [] = false
ends_line (b ∷ []) = eqb b 10
ends_line (b ∷ c ∷ bs) = ends_line (c ∷ bs)

-- The end of a file and the number of lines before it.
pub record Tail : Type 0 where
  pub head_lines : ℕ
  pub tail : List ℕ

pub tail_from : ℕ → List ℕ → Tail
tail_from zero content = record { head_lines = 0; tail = content }
tail_from (suc n) content =
    let rest = drop (suc n) content in
    record {
      head_lines =
          count_lines (take (suc n) content) + (if ends_line (first_line rest) then 1 else 0);
      tail = after_line rest;
    }

pub read_tail : ℕ → List ℕ → Tail
read_tail tail_bytes content = tail_from (length content - tail_bytes) content

-- if lines and lines[-1] == "": lines.pop()
abbrev pub pop_empty : List Text → List Text
pop_empty [] = []
pop_empty ([] ∷ []) = []
pop_empty ((c ∷ s) ∷ []) = (c ∷ s) ∷ []
pop_empty (l ∷ m ∷ lines) = l ∷ pop_empty (m ∷ lines)

-- lines[index], at an index in range
abbrev pub line_at : List Text → ℕ → Text
line_at lines index = or_else (get_elem? lines index) []

abbrev pub is_traceback : Text → Bool
is_traceback line = starts_with (codes "Traceback (most recent call last)") line

-- The loop on `back`, in `steps` turns at most.
pub find_traceback : List Text → ℕ → ℕ → Option ℕ
find_traceback lines zero steps = none
find_traceback lines (suc back) zero = none
find_traceback lines (suc back) (suc steps) =
    let earlier = find_traceback lines back steps in
    if is_traceback (line_at lines back) then some back else earlier

-- The loop on `index`, from the last line.
pub last_error : (Text → Bool) → List Text → ℕ → Option ℕ
last_error is_error lines zero = none
last_error is_error lines (suc index) =
    let earlier = last_error is_error lines index in
    if is_error (line_at lines index) then some index else earlier

-- range(index - 1, max(-1, index - 60), -1) has 59 items at most
pub hit_of : List Text → Option ℕ → Option ℕ
hit_of lines none = none
hit_of lines (some index) = some (or_else (find_traceback lines index 59) index)

-- What _error_excerpt returns.
pub record Excerpt : Type 0 where
  pub stream : String
  pub path : String
  pub line : ℕ
  pub total_lines : ℕ
  pub matched : Bool
  pub lines : List Text
  pub truncated : Bool

pub excerpt_at : String → String → ℕ → ℕ → List Text → ℕ → Bool → Excerpt
excerpt_at stream path max_lines head_lines lines hit matched = record {
  stream = stream;
  path = path;
  line = head_lines + hit + 1;
  total_lines = head_lines + length lines;
  matched = matched;
  lines = take max_lines (drop hit lines);
  truncated = ltb (hit + max_lines) (length lines);
}

pub excerpt_of : String → String → ℕ → ℕ → List Text → Option ℕ → Excerpt
excerpt_of stream path max_lines head_lines lines none =
    excerpt_at stream path max_lines head_lines lines (length lines - 12) false
excerpt_of stream path max_lines head_lines lines (some hit) =
    excerpt_at stream path max_lines head_lines lines hit true

pub excerpt_lines : (Text → Bool) → String → String → ℕ → ℕ → List Text → Option Excerpt
excerpt_lines is_error stream path max_lines head_lines [] = none
excerpt_lines is_error stream path max_lines head_lines (l ∷ lines) = some (
    excerpt_of stream path max_lines head_lines (l ∷ lines)
      (hit_of (l ∷ lines) (last_error is_error (l ∷ lines) (length (l ∷ lines)))))

pub excerpt_file : (Text → Bool) → (List ℕ → Text) → String → String → List ℕ → Option Excerpt
excerpt_file is_error decode stream path [] = none
excerpt_file is_error decode stream path (b ∷ bs) =
    let end = read_tail 262144 (b ∷ bs) in
    excerpt_lines is_error stream path 40 end.head_lines (pop_empty (split 10 (decode end.tail)))

-- A file out of the managed roots, and one that is not there, is left out.
pub excerpt_managed :
    (Text → Bool) → (List ℕ → Text) → Files → String → Result Parts → Result (Option Excerpt)
excerpt_managed is_error decode files stream (raised (Exn.http_error status text)) = ok none
excerpt_managed is_error decode files stream (raised exception) = raised exception
excerpt_managed is_error decode files stream (ok output) = elim (files.content output) [
  | none ↦ ok none
  | some content ↦ ok (excerpt_file is_error decode stream (files.show_path output) content)
]

-- Path(path) takes a text only, and then _managed_job_log.
pub managed_path : Files → List Parts → Value → Result Parts
managed_path files roots (str path) = managed_job_log files roots path
managed_path files roots path = raised Exn.type_error

-- path == stdout_path; paths that are no texts raise either way
abbrev same_path : Value → Value → Bool
same_path (str path) stdout_path = equals_str stdout_path path
same_path path stdout_path = false

-- One turn of the loop on the streams.
pub excerpt_stream :
    (Text → Bool)
    → (List ℕ → Text)
    → Files
    → List Parts
    → Value
    → Value
    → String
    → Result (Option Excerpt)
excerpt_stream is_error decode files roots job_data stdout_path stream = do
  path ← log_path job_data stream
  if truthy path && not (stream == "stderr" && same_path path stdout_path)
      then excerpt_managed is_error decode files stream (managed_path files roots path)
      else ok none

-- _error_excerpt
pub error_excerpt :
    (Text → Bool) → (List ℕ → Text) → Files → List Parts → Value → Result (Option Excerpt)
error_excerpt is_error decode files roots job_data = do
  stdout_path ← log_path job_data "stdout"
  found ← excerpt_stream is_error decode files roots job_data stdout_path "stderr"
  elim found [
    | none ↦ excerpt_stream is_error decode files roots job_data stdout_path "stdout"
    | some excerpt ↦ ok (some excerpt)
  ]
