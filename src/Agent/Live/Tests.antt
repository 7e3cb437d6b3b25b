-- ===== src/Agent/Live/Tests.antt =====
-- A session on a job with two events, and a client that says nothing.
use slurm_web.Base.{
  ℕ, ◌+◌, String, ◌≡◌, ◌++◌, refl, true, false, Option, none, some, List, [], ◌∷◌, pos, map, keep,
  ltb_ℤ, ◌⊎◌, inl, inr, ◌==◌, if◌then◌else◌,
}
use slurm_web.Py.Value.{Value, null, int, str, list, dict, nil, cons, field, end}
use slurm_web.Py.Error.{not_found}
use slurm_web.Py.Result.{ok}
use slurm_web.Py.Exec.{pure, raise}
use slurm_web.Live.{Socket}
use slurm_web.Live.Handshake.{IsPolite}
use slurm_web.Agent.Api.{Api}
use slurm_web.Agent.Jobs.{User}
use slurm_web.Agent.Logs.{Files}
use slurm_web.Agent.Checks.{Event}
use slurm_web.Agent.Live.State.{Frame, Env, Live, init}
use slurm_web.Agent.Live.{push_events}
use slurm_web.Agent.Live.Control.{service, dispatch}
use slurm_web.Agent.Live.Cursors.{Goes}
use slurm_web.Agent.Live.Serving.{none_yet, after, served, answered, checks_cursor-Climbs}
use slurm_web.Agent.Live.Complete.{push_events-keep}
use slurm_web.Agent.Live.Closing.{job_live, job_live-ok}

-- the job, which runs
abbrev job_data : Value
job_data = dict (
    field "user" (str "marie")
      (field "state" (dict (field "current" (list (cons (str "RUNNING") nil)) end)) end))

-- the world is its clock
abbrev api : Api ℕ
api = record {
  discover = pure (null, null, none);
  jobs = pure (list nil);
  jobs_past = λ hours. pure (list nil);
  job = λ job_id. pure job_data;
  nodes = pure (list nil);
  node = λ name. raise (not_found name);
  partitions = pure (list nil);
  accounts = pure (list nil);
  associations = pure (list nil);
  reservations = pure (list nil);
  qos = pure (list nil);
}

abbrev silent : Socket ℕ Frame
silent = record {
  receive = λ timeout. pure none;
  send = λ frame. pure tt;
  close = λ code message. pure tt;
}

-- a line of one byte is an event with this byte as its number
abbrev load_event : List ℕ → Option Value
load_event [] = none
load_event (b ∷ bs) = some (dict (field "job_id" (int (pos 7)) (field "seq" (int (pos b)) end)))

abbrev files : Files
files = record { resolve = λ path. []; content = λ parts. none; show_path = λ parts. "" }

abbrev env : Env ℕ
env = record {
  socket = silent;
  loads = λ text. none;
  monotonic = λ w. (w, w + 1);
  time = λ w. (w, w);
  api = api;
  format = λ v. "value";
  files = λ w. files;
  roots = [];
  check_files = λ w job. some (some (5 ∷ 10 ∷ 3 ∷ 10 ∷ []) ∷ []);
  load_event = load_event;
  parse_time = λ text. none;
  is_error = λ line. false;
  decode = λ bytes. bytes;
  gpu_files = λ w. [];
  to_ms = λ v. ok (pos 0);
  tenths = λ n d. n;
  dumps = λ nodes. "nodes";
}

abbrev start : Live ℕ
start = record {
  session = record (init 7 job_data 0) {
    channels = record { checks = true; log = false; gpu = false; job = false };
    checks_cursor = pos 3;
  };
  sent = [];
  world = 0;
}

abbrev ping : Value
ping = dict (field "type" (str "ping") end)

-- a pass over the channels, and the answer to a ping
checks_cursor-Climbs_example : Goes start (dispatch env "ping" ping (service env start).1).1
checks_cursor-Climbs_example =
    checks_cursor-Climbs env start (dispatch env "ping" ping (service env start).1).1
      (after (after none_yet (served start)) (answered "ping" ping (service env start).1 refl))

abbrev event : ℕ → Event
event n = record {
  seq = pos n;
  fields = dict (field "job_id" (int (pos 7)) (field "seq" (int (pos n)) end));
}

-- of the events 3 and 5 the first one is known to the client
pushed : (push_events env (event 3 ∷ event 5 ∷ []) start).0 ≡ ok tt
unfolding push_events slurm_web.Agent.Live.send
pushed = refl

push_events-keep_example :
    (push_events env (event 3 ∷ event 5 ∷ []) start).1.sent
    ≡ [] ++ map Frame.check (keep (λ e. ltb_ℤ (pos 3) e.seq) (event 3 ∷ event 5 ∷ []))
push_events-keep_example = push_events-keep env (event 3 ∷ event 5 ∷ []) start (refl, tt) pushed

silent-IsPolite : IsPolite silent
silent-IsPolite = record { send = λ f w e h. cc; close = λ code message w e h. cc }

abbrev marie : User
marie = record { login = "marie"; allowed = λ action. true }

abbrev decode : String → String ⊎ User
decode token = if token == "valid" then inr marie else inl "invalid"

job_live-ok_example :
    (job_live env (λ node nodes. ok false) (λ e. "error") 2 decode (some "Bearer valid") 7 0).0
    ≡ ok tt
job_live-ok_example =
    job_live-ok env (λ node nodes. ok false) (λ e. "error") silent-IsPolite 2 decode
      (some "Bearer valid") 7 0
