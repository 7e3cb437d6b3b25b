-- ===== src/Agent/Live/Serving.antt =====
-- What a live session sends between two subscriptions (slurmweb/views/agent.py).
use slurm_web.Base.{
  ℕ, String, ◌≡◌, Bool, true, false, Option, none, some, [], ◌∷◌, if◌then◌else◌, ◌==◌, Dict,
}
use slurm_web.Py.Value.{Value}
use slurm_web.Py.Error.{Exn, http_of}
use slurm_web.Py.Result.{Result, ok, raised}
use slurm_web.Py.Exec.{Exec, when}
use slurm_web.Py.Exec.Keeps.{Keeps, keeps_rules, bind-Keeps, when-Keeps}
use slurm_web.Agent.Summary.{Summary}
use slurm_web.Agent.Logs.{Chunk}
use slurm_web.Agent.Live.State.{Stream, Env, Live}
use slurm_web.Agent.Live.{
  push_job, push_log, push_gpu, push_streams, push_stream, push_chunk, announce, send_chunk,
  pause_log, on_read, push_merged,
}
use slurm_web.Agent.Live.Control.{
  refresh_job, service_channels, service, pause, follow_log, report, heartbeat, service_gpu,
  dispatch, dispatch_other,
}
use slurm_web.Agent.Live.Cursors.{
  Goes, Goes_preorder, outside-Keeps, push_checks-Keeps, quiet_rules,
}

module _ {W : Type 0} (env : Env W) where
  announce-Keeps :
      (force : Bool) (last : Option Summary) (summary : Summary)
      → Keeps Goes (announce env force last summary)
  announce-Keeps true last summary = search quiet_rules
  announce-Keeps false none summary = search quiet_rules
  announce-Keeps false (some last) summary = search quiet_rules

  push_job-Keeps : (force : Bool) → Keeps Goes (push_job env force)
  unfolding push_job
  push_job-Keeps force = search (quiet_rules, announce-Keeps) depth 20

  push_gpu-Keeps : Keeps Goes (push_gpu env)
  unfolding push_gpu
  push_gpu-Keeps = search quiet_rules depth 20

  send_chunk-Keeps :
      (name : String) (state : Stream) (chunk : Chunk)
      → Keeps Goes (send_chunk env name state chunk)
  send_chunk-Keeps name state chunk = search quiet_rules depth 20

  pause_log-Keeps : (e : Exn) (o : Option (ℕ × String)) → Keeps Goes (pause_log env e o)
  pause_log-Keeps e none = search quiet_rules depth 20
  pause_log-Keeps e (some (code, message)) = search quiet_rules depth 20

  on_read-Keeps :
      (name : String) (state : Stream) (r : Result Chunk) → Keeps Goes (on_read env name state r)
  on_read-Keeps name state (raised e) = pause_log-Keeps e (http_of e)
  on_read-Keeps name state (ok chunk) = search (keeps_rules, send_chunk-Keeps) depth 20

  push_chunk-Keeps :
      (job_data : Value) (name : String) (state : Stream)
      → Keeps Goes (push_chunk env job_data name state)
  unfolding push_chunk
  push_chunk-Keeps job_data name state = search (keeps_rules, outside-Keeps, on_read-Keeps) depth 20

  push_merged-Keeps :
      (path : Value) (name : String) (state : Stream) → Keeps Goes (push_merged env path name state)
  push_merged-Keeps path name state = search quiet_rules depth 20

  push_stream-Keeps :
      (job_data path : Value) (name : String) (state : Stream)
      → Keeps Goes (push_stream env job_data path name state)
  unfolding push_stream
  push_stream-Keeps job_data path name state =
      search (keeps_rules, push_chunk-Keeps, push_merged-Keeps) depth 20

  push_streams-Keeps :
      (job_data path : Value) (streams : Dict Stream)
      → Keeps Goes (push_streams env job_data path streams)
  unfolding push_streams
  push_streams-Keeps job_data path [] = search keeps_rules
  push_streams-Keeps job_data path ((name, state) ∷ streams) =
      bind-Keeps (push_stream env job_data path name state)
        (λ goes_on. when goes_on (push_streams env job_data path streams))
        (push_stream-Keeps job_data path name state)
        (λ goes_on. when-Keeps goes_on _ (push_streams-Keeps job_data path streams))

  push_log-Keeps : Keeps Goes (push_log env)
  unfolding push_log
  push_log-Keeps = search (keeps_rules, push_streams-Keeps) depth 20

  report-Keeps : (e : Exn) (o : Option (ℕ × String)) → Keeps Goes (report env e o)
  report-Keeps e none = search keeps_rules
  report-Keeps e (some (code, message)) = search quiet_rules depth 20

  refresh_job-Keeps : Keeps Goes (refresh_job env)
  unfolding refresh_job
  refresh_job-Keeps = search (quiet_rules, report-Keeps, push_job-Keeps) depth 30

  service_gpu-Keeps : (now : ℕ) → Keeps Goes (service_gpu env now)
  service_gpu-Keeps now = search (quiet_rules, push_gpu-Keeps) depth 20

  heartbeat-Keeps : Keeps Goes (heartbeat env)
  heartbeat-Keeps = search quiet_rules depth 20

  -- A pass over the channels, whether it returns or raises.
  service-Keeps : Keeps Goes (service env)
  unfolding service service_channels
  service-Keeps =
      search
        (
          keeps_rules, outside-Keeps, refresh_job-Keeps, push_checks-Keeps, push_log-Keeps,
          service_gpu-Keeps, heartbeat-Keeps,
        )
        depth 40

  pause-Keeps : (paused : Bool) (message : Value) → Keeps Goes (pause env paused message)
  unfolding pause
  pause-Keeps paused message = search quiet_rules depth 20

  follow_log-Keeps : (message : Value) → Keeps Goes (follow_log env message)
  unfolding follow_log
  follow_log-Keeps message = search quiet_rules depth 20

  if-Keeps :
      (b : Bool) (m n : Exec (Live W) (Unit {0}))
      → Keeps Goes m
      → Keeps Goes n
      → Keeps Goes (if b then m else n)
  if-Keeps true m n h k = h
  if-Keeps false m n h k = k

  dispatch_other-Keeps :
      (kind : String) (message : Value) → Keeps Goes (dispatch_other env kind message)
  unfolding dispatch_other
  dispatch_other-Keeps kind message =
      search (if-Keeps, quiet_rules, pause-Keeps, follow_log-Keeps) depth 30

  -- The answer to a message of any other type than `subscribe`.
  dispatch-Keeps :
      (kind : String) (message : Value)
      → (kind == "subscribe") ≡ false
      → Keeps Goes (dispatch env kind message)
  unfolding dispatch
  dispatch-Keeps kind message h = rw h (dispatch_other-Keeps kind message)

  -- What a session does after a subscription: it serves its channels, and it answers messages.
  pub data Step : Live W → Live W → Type 0 where
    served : (l : Live W) → Step l (service env l).1
    answered :
        (kind : String) (message : Value) (l : Live W)
        → (kind == "subscribe") ≡ false
        → Step l (dispatch env kind message l).1

  pub data Steps : Live W → Live W → Type 0 where
    none_yet : {l : Live W} → Steps l l
    after : {l m n : Live W} → Steps l m → Step m n → Steps l n

  Step-Goes : {l m : Live W} → Step l m → Goes l m
  Step-Goes (served l) = service-Keeps.from l
  Step-Goes (answered kind message l h) = (dispatch-Keeps kind message h).from l

  -- Until the next subscription, in any order of messages and passes over the channels, and also
  -- where one of them raises, the events that a session sends have growing numbers, all above the
  -- cursor that it started from and none above its cursor: no event is sent twice.
  pub checks_cursor-Climbs : (l m : Live W) → Steps l m → Goes l m
  checks_cursor-Climbs l m none_yet = Goes_preorder.same l
  checks_cursor-Climbs l m (after {m = k} r s) =
      Goes_preorder.chain l k m (checks_cursor-Climbs l k r) (Step-Goes s)
