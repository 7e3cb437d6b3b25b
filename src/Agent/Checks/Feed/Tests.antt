-- ===== src/Agent/Checks/Feed/Tests.antt =====
-- A stream of one event, on a clock that only sleeps move.
use slurm_web.Base.{
  ℕ, ◌+◌, ◌≡◌, ◌≢◌, refl, Bool, true, false, Option, none, some, List, [], ◌∷◌, pos, arith,
}
use slurm_web.Py.Value.{Value, int, dict, field, end}
use slurm_web.Py.Result.{ok}
use slurm_web.Py.Exec.{pure}
use slurm_web.Agent.Checks.{Event}
use slurm_web.Agent.Checks.Feed.{Line, Feed, Env, cursor_of, emit_events, generate}
use slurm_web.Agent.Checks.Feed.Ends.{IsClock, generate-ends}

abbrev event : ℕ → Event
event n = record {
  seq = pos n;
  fields = dict (field "job_id" (int (pos 7)) (field "seq" (int (pos n)) end));
}

abbrev load : List ℕ → Option Value
load [] = none
load (b ∷ bs) = some (dict (field "job_id" (int (pos 7)) (field "seq" (int (pos b)) end)))

abbrev env : Env ℕ
env = record {
  check_files = λ w job. some (some (5 ∷ 10 ∷ []) ∷ []);
  load_event = load;
  monotonic = λ w. (w, w);
  sleep = λ t w. w + t;
  take = λ line. pure tt;
}

abbrev start : Feed ℕ
start = record { cursor = pos 3; heartbeat = 0; yielded = []; world = 40 }

from_three : cursor_of (some "3") ≡ ok 3
unfolding cursor_of slurm_web.Base.parse_int
from_three = refl

two_lines :
    (emit_events env (event 5 ∷ event 6 ∷ []) start).1.yielded
    ≡ Line.check (pos 5) (event 5) ∷ Line.check (pos 6) (event 6) ∷ []
unfolding emit_events slurm_web.Agent.Checks.Feed.emit
two_lines = refl

clock : IsClock env (λ w. w)
clock = record {
  shown = λ w. omega arith;
  gone_on = λ w. omega arith;
  slept = λ t w. omega arith;
  taken = λ line w. omega arith;
}

generate-ends_example : (generate env 61 7 start).0 ≢ ok false
generate-ends_example = generate-ends env (λ w. w) clock 7 start
