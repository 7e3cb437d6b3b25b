-- ===== src/Agent/Diagnostics.antt =====
-- slurmweb/views/agent.py: the exit codes of a job and of its steps, and the summary of a failure.
pub mod Failures
pub mod Tests
use slurm_web.Base.{
  String, Bool, true, false, Option, none, some, List, [], ◌∷◌, ◌||◌, not, if◌then◌else◌, any, elem,
}
use slurm_web.Py.Value.{Value, null, str, list, dict, nil, end, truthy, equals_str}
use slurm_web.Py.Result.{Result, ok, raised, ◌>>=◌}
use slurm_web.Py.Ops.{get_default, iterate}
use slurm_web.Agent.Excerpt.{Excerpt}

-- What _exit_summary returns.
pub record ExitSummary : Type 0 where
  pub status : Value
  pub return_code : Value
  pub signal : Value
  pub signal_name : Value

-- v.get("number") if v.get("set") else None
pub number_if_set : Value → Result Value
number_if_set v = do
  is_set ← get_default v "set" null
  if truthy is_set then get_default v "number" null else ok null

-- _exit_summary
pub exit_summary : Value → Result (Option ExitSummary)
exit_summary (dict fs) = do
  status ← get_default (dict fs) "status" (list nil)
  code ← get_default (dict fs) "return_code" (dict end)
  return_code ← number_if_set code
  signal ← get_default (dict fs) "signal" (dict end)
  id ← get_default signal "id" (dict end)
  number ← number_if_set id
  name ← get_default signal "name" (str "")
  ok (
      some (record {
        status = status;
        return_code = return_code;
        signal = number;
        signal_name = name;
      }))
exit_summary v = ok none

-- state in ("FAILED", …)
abbrev pub is_one_of : List String → Value → Bool
is_one_of names v = any (λ name. equals_str v name) names

abbrev pub failed_step_states : List String
failed_step_states = "FAILED" ∷ "CANCELLED" ∷ "OUT_OF_MEMORY" ∷ "TIMEOUT" ∷ "NODE_FAIL" ∷ []

abbrev pub failed_job_states : List String
failed_job_states =
    "FAILED" ∷ "OUT_OF_MEMORY" ∷ "TIMEOUT" ∷ "NODE_FAIL" ∷ "CANCELLED" ∷ "BOOT_FAIL" ∷ "DEADLINE"
    ∷ "PREEMPTED" ∷ []

-- (v or 0) != 0, which holds of the values that are true
abbrev pub is_nonzero : Value → Bool
is_nonzero v = truthy v

-- d.get(key, []) or []
pub list_or_empty : Value → String → Result (List Value)
list_or_empty v key = do
  found ← get_default v key (list nil)
  if truthy found then iterate found else ok []

pub exits_nonzero : Value → Result Bool
exits_nonzero step = do
  exit_code ← get_default step "exit_code" (dict end)
  return_code ← get_default exit_code "return_code" (dict end)
  number ← get_default return_code "number" null
  ok (is_nonzero number)

-- the condition of the comprehension
pub is_failed_step : Value → Result Bool
is_failed_step step = do
  state ← get_default step "state" (list nil)
  states ← iterate state
  if any (is_one_of failed_step_states) states then ok true else exits_nonzero step

pub record FailedStep : Type 0 where
  pub id : Value
  pub name : Value
  pub state : Value
  pub exit_code : Option ExitSummary
  pub nodes : Value

pub failed_step : Value → Result FailedStep
failed_step step = do
  step_id ← get_default step "step" (dict end)
  id ← get_default step_id "id" null
  name ← get_default step_id "name" null
  state ← get_default step "state" (list nil)
  code ← get_default step "exit_code" null
  exit_code ← exit_summary code
  places ← get_default step "nodes" (dict end)
  nodes ← get_default places "range" (str "")
  ok (record { id = id; name = name; state = state; exit_code = exit_code; nodes = nodes })

-- The items that satisfy the condition, each under the function.
pub comprehend :
    {A : Type 0} → (Value → Result Bool) → (Value → Result A) → List Value → Result (List A)
comprehend test make [] = ok []
comprehend test make (v ∷ vs) = do
  wanted ← test v
  made ← if wanted then (make v >>= λ a. ok (some a)) else ok none
  rest ← comprehend test make vs
  ok (elim made [ none ↦ rest | some a ↦ a ∷ rest ])

pub record Diagnostics : Type 0 where
  pub states : Value
  pub reason : Value
  pub exit_code : Option ExitSummary
  pub derived_exit_code : Option ExitSummary
  pub failed_steps : List FailedStep
  pub excerpt : Option Excerpt

-- bool(exit_code and (… or …))
pub is_nonzero_exit : Option ExitSummary → Bool
is_nonzero_exit none = false
is_nonzero_exit (some e) = is_nonzero e.return_code || truthy e.signal

abbrev pub is_empty_list : {A : Type 0} → List A → Bool
is_empty_list [] = true
is_empty_list (x ∷ xs) = false

-- failed or nonzero or failed_steps
pub is_failure : List Value → Option ExitSummary → List FailedStep → Bool
is_failure names exit_code failed_steps =
    any (is_one_of failed_job_states) names
    || is_nonzero_exit exit_code
    || not (is_empty_list failed_steps)

-- the part that follows the test
pub failure :
    (Value → Result (Option Excerpt))
    → Value
    → Value
    → Option ExitSummary
    → List FailedStep
    → Result (Option Diagnostics)
failure error_excerpt job_data states exit_code failed_steps = do
  state ← get_default job_data "state" (dict end)
  reason ← get_default state "reason" (str "")
  derived ← get_default job_data "derived_exit_code" null
  derived_exit_code ← exit_summary derived
  excerpt ← error_excerpt job_data
  ok (
      some (record {
        states = states;
        reason = reason;
        exit_code = exit_code;
        derived_exit_code = derived_exit_code;
        failed_steps = failed_steps;
        excerpt = excerpt;
      }))

-- job_data.get("state", {}).get("current", [])
pub states_of : Value → Result Value
states_of job_data = do
  state ← get_default job_data "state" (dict end)
  get_default state "current" (list nil)

-- _job_diagnostics; `error_excerpt` is _error_excerpt on the files of the moment
pub job_diagnostics : (Value → Result (Option Excerpt)) → Value → Result (Option Diagnostics)
job_diagnostics error_excerpt job_data = do
  states ← states_of job_data
  code ← get_default job_data "exit_code" null
  exit_code ← exit_summary code
  steps ← list_or_empty job_data "steps"
  failed_steps ← comprehend is_failed_step failed_step steps
  names ← iterate states
  if is_failure names exit_code failed_steps
      then failure error_excerpt job_data states exit_code failed_steps
      else ok none
