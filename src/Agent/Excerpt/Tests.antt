-- ===== src/Agent/Excerpt/Tests.antt =====
-- A small output with a traceback.
use slurm_web.Base.{
  ℕ, zero, suc, ◌+◌, ◌≡◌, ◌++◌, String, refl, Bool, true, false, Option, none, some, List, [], ◌∷◌,
  eqb, codes, any, length, Text, starts_with,
}
use slurm_web.Py.Value.{Value, dict, field, end, str}
use slurm_web.Py.Result.{ok}
use slurm_web.Agent.Logs.{Files, Parts}
use slurm_web.Agent.Excerpt.{last_error, hit_of, Excerpt, excerpt_lines, read_tail, error_excerpt}
use slurm_web.Agent.Excerpt.Shown.{Hit, hit_of-Hit, Shown, excerpt_lines-Shown}

-- a line that starts with an `e`
abbrev is_error : Text → Bool
is_error line = starts_with (codes "e") line

abbrev output : List Text
output =
    codes "start" ∷ codes "Traceback (most recent call last):" ∷ codes "error" ∷ codes "end" ∷ []

hit_of-Hit_example :
    Hit is_error output (hit_of output (last_error is_error output (length output)))
hit_of-Hit_example = hit_of-Hit is_error output

hit_output : hit_of output (last_error is_error output (length output)) ≡ some 1
unfolding hit_of last_error slurm_web.Agent.Excerpt.find_traceback
hit_output = refl

excerpt_lines-Shown_example :
    (e : Excerpt) × (excerpt_lines is_error "stderr" "/logs/job" 2 10 output ≡ some e)
    × Shown 2 10 output e
excerpt_lines-Shown_example =
    excerpt_lines-Shown is_error "stderr" "/logs/job" 2 10 (codes "start")
      (codes "Traceback (most recent call last):" ∷ codes "error" ∷ codes "end" ∷ [])

-- a file of three lines, of which the last four bytes are read
abbrev content : List ℕ
content = 97 ∷ 10 ∷ 98 ∷ 10 ∷ 99 ∷ 10 ∷ []

head_of_content : (read_tail 3 content).head_lines ≡ 2
unfolding read_tail slurm_web.Agent.Excerpt.tail_from
head_of_content = refl

tail_of_content : (read_tail 3 content).tail ≡ 99 ∷ 10 ∷ []
unfolding read_tail slurm_web.Agent.Excerpt.tail_from
tail_of_content = refl

-- both streams of a job whose output is the file `/logs/job`
abbrev job_data : Value
job_data =
    dict (field "stdout_expanded" (str "/logs/job") (field "stderr_expanded" (str "/logs/job") end))

abbrev files : Files
files = record {
  resolve = λ path. "logs" ∷ "job" ∷ [];
  content = λ parts. some (codes "a" ++ 10 ∷ codes "error" ++ 10 ∷ codes "b");
  show_path = λ parts. "/logs/job";
}

abbrev found : Excerpt
found = record {
  stream = "stdout";
  path = "/logs/job";
  line = 2;
  total_lines = 3;
  matched = true;
  lines = codes "error" ∷ codes "b" ∷ [];
  truncated = false;
}

merged : error_excerpt is_error (λ bs. bs) files (("logs" ∷ []) ∷ []) job_data ≡ ok (some found)
unfolding error_excerpt slurm_web.Agent.Logs.log_path slurm_web.Py.Ops.get_default
    slurm_web.Py.Value.truthy slurm_web.Base.get slurm_web.Py.Value.fields_of
    slurm_web.Agent.Excerpt.excerpt_stream slurm_web.Py.Value.equals_str
    slurm_web.Agent.Excerpt.excerpt_managed slurm_web.Agent.Excerpt.managed_path
    slurm_web.Agent.Logs.managed_job_log slurm_web.Agent.Excerpt.excerpt_file excerpt_lines
    slurm_web.Base.split read_tail slurm_web.Agent.Excerpt.tail_from
    slurm_web.Agent.Excerpt.excerpt_of slurm_web.Agent.Excerpt.excerpt_at
    slurm_web.Agent.Excerpt.find_traceback hit_of last_error
merged = refl
