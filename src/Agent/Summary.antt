-- ===== src/Agent/Summary.antt =====
-- slurmweb/views/agent.py: the state of a job that live sessions push, and when two of them are equal.
use slurm_web.Base.{
  Bool, true, false, Option, none, List, [], ◌∷◌, ◌==◌, ◌&&◌, not, any, eqb, same, pos,
}
use slurm_web.Py.Value.{Value, null, int, str, list, dict, nil, end}
use slurm_web.Py.Equal.{same_value, same_list, same_option}
use slurm_web.Py.Result.{Result, ok, ◌>>=◌}
use slurm_web.Py.Ops.{get_default, iterate}
use slurm_web.Slurmrestd.Jobs.{is_terminal}
use slurm_web.Agent.Excerpt.{Excerpt}
use slurm_web.Agent.Diagnostics.{
  ExitSummary, FailedStep, Diagnostics, exit_summary, number_if_set, list_or_empty, job_diagnostics,
  states_of,
}

-- _job_is_active
pub job_is_active : Value → Result Bool
job_is_active job_data = do
  current ← states_of job_data
  states ← iterate current
  ok (not (any is_terminal states))

pub record StepSummary : Type 0 where
  pub id : Value
  pub name : Value
  pub state : Value
  pub elapsed : Value
  pub start : Value
  pub stop : Value
  pub exit_code : Option ExitSummary
  pub nodes : Value
  pub node_count : Value
  pub tasks : Value

-- the loop over the steps; the field `end` is `stop` here
pub step_summary : Value → Result StepSummary
step_summary step = do
  time ← get_default step "time" (dict end)
  step_id ← get_default step "step" (dict end)
  id ← get_default step_id "id" null
  name ← get_default step_id "name" null
  state ← get_default step "state" (list nil)
  elapsed ← get_default time "elapsed" (int (pos 0))
  start_time ← get_default time "start" (dict end)
  start ← number_if_set start_time
  end_time ← get_default time "end" (dict end)
  stop ← number_if_set end_time
  code ← get_default step "exit_code" null
  exit_code ← exit_summary code
  places ← get_default step "nodes" (dict end)
  nodes ← get_default places "range" (str "")
  node_count ← get_default places "count" (int (pos 0))
  task_counts ← get_default step "tasks" (dict end)
  tasks ← get_default task_counts "count" (int (pos 0))
  ok (record {
    id = id;
    name = name;
    state = state;
    elapsed = elapsed;
    start = start;
    stop = stop;
    exit_code = exit_code;
    nodes = nodes;
    node_count = node_count;
    tasks = tasks;
  })

pub step_summaries : List Value → Result (List StepSummary)
step_summaries [] = ok []
step_summaries (step ∷ steps) = do
  summary ← step_summary step
  rest ← step_summaries steps
  ok (summary ∷ rest)

pub record Summary : Type 0 where
  pub state : Value
  pub reason : Value
  pub elapsed : Value
  pub start : Value
  pub stop : Value
  pub nodes : Value
  pub exit_code : Option ExitSummary
  pub derived_exit_code : Option ExitSummary
  pub steps : List StepSummary
  pub active : Bool
  pub diagnostics : Option Diagnostics

pub diagnostics_unless :
    Bool → (Value → Result (Option Excerpt)) → Value → Result (Option Diagnostics)
diagnostics_unless true error_excerpt job_data = ok none
diagnostics_unless false error_excerpt job_data = job_diagnostics error_excerpt job_data

-- _job_summary
pub job_summary : (Value → Result (Option Excerpt)) → Value → Result Summary
job_summary error_excerpt job_data = do
  listed ← list_or_empty job_data "steps"
  steps ← step_summaries listed
  active ← job_is_active job_data
  time ← get_default job_data "time" (dict end)
  job_state ← get_default job_data "state" (dict end)
  state ← get_default job_state "current" (list nil)
  reason ← get_default job_state "reason" (str "")
  elapsed ← get_default time "elapsed" (int (pos 0))
  start ← get_default time "start" null
  stop ← get_default time "end" null
  nodes ← get_default job_data "nodes" (str "")
  code ← get_default job_data "exit_code" null
  exit_code ← exit_summary code
  derived ← get_default job_data "derived_exit_code" null
  derived_exit_code ← exit_summary derived
  diagnostics ← diagnostics_unless active error_excerpt job_data
  ok (record {
    state = state;
    reason = reason;
    elapsed = elapsed;
    start = start;
    stop = stop;
    nodes = nodes;
    exit_code = exit_code;
    derived_exit_code = derived_exit_code;
    steps = steps;
    active = active;
    diagnostics = diagnostics;
  })

-- `==` of the dictionaries
abbrev same_bool : Bool → Bool → Bool
same_bool true b = b
same_bool false b = not b

abbrev same_exit : ExitSummary → ExitSummary → Bool
same_exit a b =
    same_value a.status b.status
    && same_value a.return_code b.return_code
    && same_value a.signal b.signal
    && same_value a.signal_name b.signal_name

abbrev same_failed_step : FailedStep → FailedStep → Bool
same_failed_step a b =
    same_value a.id b.id
    && same_value a.name b.name
    && same_value a.state b.state
    && same_option same_exit a.exit_code b.exit_code
    && same_value a.nodes b.nodes

abbrev same_excerpt : Excerpt → Excerpt → Bool
same_excerpt a b =
    a.stream == b.stream
    && a.path == b.path
    && eqb a.line b.line
    && eqb a.total_lines b.total_lines
    && same_bool a.matched b.matched
    && same_list same a.lines b.lines
    && same_bool a.truncated b.truncated

abbrev same_diagnostics : Diagnostics → Diagnostics → Bool
same_diagnostics a b =
    same_value a.states b.states
    && same_value a.reason b.reason
    && same_option same_exit a.exit_code b.exit_code
    && same_option same_exit a.derived_exit_code b.derived_exit_code
    && same_list same_failed_step a.failed_steps b.failed_steps
    && same_option same_excerpt a.excerpt b.excerpt

abbrev same_step : StepSummary → StepSummary → Bool
same_step a b =
    same_value a.id b.id
    && same_value a.name b.name
    && same_value a.state b.state
    && same_value a.elapsed b.elapsed
    && same_value a.start b.start
    && same_value a.stop b.stop
    && same_option same_exit a.exit_code b.exit_code
    && same_value a.nodes b.nodes
    && same_value a.node_count b.node_count
    && same_value a.tasks b.tasks

pub same_summary : Summary → Summary → Bool
same_summary a b =
    same_value a.state b.state
    && same_value a.reason b.reason
    && same_value a.elapsed b.elapsed
    && same_value a.start b.start
    && same_value a.stop b.stop
    && same_value a.nodes b.nodes
    && same_option same_exit a.exit_code b.exit_code
    && same_option same_exit a.derived_exit_code b.derived_exit_code
    && same_list same_step a.steps b.steps
    && same_bool a.active b.active
    && same_option same_diagnostics a.diagnostics b.diagnostics
