-- ===== src/Agent/Diagnostics/Failures.antt =====
-- Which jobs have a summary of their failure (slurmweb/views/agent.py).
use slurm_web.Base.{
  ◌≡◌, ◌≢◌, refl, Bool, true, false, Option, none, some, List, [], ◌∷◌, ◌||◌, ◌&&◌, not, any, arith,
  Bool-cases, inl, inr, sym, ◌∙◌, if◌then◌else◌,
}
use slurm_web.Py.Value.{Value, str, null, dict, end, equals_str}
use slurm_web.Py.Result.{Result, ok, >>=-eq-ok, ok-injective}
use slurm_web.Py.Ops.{get_default, iterate}
use slurm_web.Slurmrestd.Jobs.{is_terminal}
use slurm_web.Agent.Excerpt.{Excerpt}
use slurm_web.Agent.Diagnostics.{
  ExitSummary, FailedStep, exit_summary, list_or_empty, comprehend, is_failed_step, failed_step,
  states_of, is_failure, failure, job_diagnostics, is_one_of, failed_job_states,
}

-- A state in which a job ends without success.
abbrev pub is_unsuccessful : Value → Bool
is_unsuccessful state = is_terminal state && not (equals_str state "COMPLETED")

unsuccessful-is_one_of :
    (state : Value) → is_unsuccessful state ≡ true → is_one_of failed_job_states state ≡ true
unfolding is_terminal
unsuccessful-is_one_of state h = ground arith

or-true : (b c : Bool) → c ≡ true → b || c ≡ true
or-true true c h = refl
or-true false c h = h

false-or : (b c : Bool) → b || c ≡ true → b ≡ false → c ≡ true
false-or b c h f = ground arith

any-is_one_of :
    (states : List Value)
    → any is_unsuccessful states ≡ true
    → any (is_one_of failed_job_states) states ≡ true
any-is_one_of [] h = cc
any-is_one_of (s ∷ states) h = elim (Bool-cases (is_unsuccessful s)) [
  | inl t ↦ rw (unsuccessful-is_one_of s t) refl
  | inr t ↦ or-true (is_one_of failed_job_states s) _ (any-is_one_of states (false-or _ _ h t))
]

some-ne-none : {A : Type 0} {a : A} → some a ≢ none
some-ne-none h = cc

failure-ne-none :
    (error_excerpt : Value → Result (Option Excerpt)) (job_data states : Value)
    (exit_code : Option ExitSummary) (failed_steps : List FailedStep)
    → failure error_excerpt job_data states exit_code failed_steps ≢ ok none
unfolding failure
failure-ne-none error_excerpt job_data states exit_code failed_steps h =
    let (state, a, h1) = >>=-eq-ok (get_default job_data "state" (dict end)) _ h in
    let (reason, b, h2) = >>=-eq-ok (get_default state "reason" (str "")) _ h1 in
    let (derived, c, h3) = >>=-eq-ok (get_default job_data "derived_exit_code" null) _ h2 in
    let (code, d, h4) = >>=-eq-ok (exit_summary derived) _ h3 in
    let (excerpt, e, h5) = >>=-eq-ok (error_excerpt job_data) _ h4 in some-ne-none (ok-injective h5)

verdict-ne-none :
    (error_excerpt : Value → Result (Option Excerpt)) (job_data states : Value) (names : List Value)
    (exit_code : Option ExitSummary) (failed_steps : List FailedStep)
    → any is_unsuccessful names ≡ true
    → (if is_failure names exit_code failed_steps
        then failure error_excerpt job_data states exit_code failed_steps
        else ok none)
      ≢ ok none
unfolding is_failure
verdict-ne-none error_excerpt job_data states names exit_code failed_steps hu h =
    failure-ne-none error_excerpt job_data states exit_code failed_steps
      (rw (any-is_one_of names hu) at h)

-- A job that has ended in any other state than COMPLETED is never without a summary of its failure.
pub job_diagnostics-ne-none :
    (error_excerpt : Value → Result (Option Excerpt)) (job_data states : Value) (names : List Value)
    → states_of job_data ≡ ok states
    → iterate states ≡ ok names
    → any is_unsuccessful names ≡ true
    → job_diagnostics error_excerpt job_data ≢ ok none
unfolding job_diagnostics
job_diagnostics-ne-none error_excerpt job_data states names hs hn hu h =
    let (states', a, h1) = >>=-eq-ok (states_of job_data) _ h in
    let (code, b, h2) = >>=-eq-ok (get_default job_data "exit_code" null) _ h1 in
    let (exit_code, c, h3) = >>=-eq-ok (exit_summary code) _ h2 in
    let (steps, d, h4) = >>=-eq-ok (list_or_empty job_data "steps") _ h3 in
    let (failed_steps, e, h5) = >>=-eq-ok (comprehend is_failed_step failed_step steps) _ h4 in
    let (names', f, h6) = >>=-eq-ok (iterate states') _ h5 in
    let same_states : states' ≡ states = ok-injective (sym a ∙ hs) in
    let same_names : names' ≡ names = ok-injective (sym f ∙ rw same_states hn) in
    verdict-ne-none error_excerpt job_data states' names' exit_code failed_steps (rw same_names hu)
      h6
