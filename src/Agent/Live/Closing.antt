-- ===== src/Agent/Live/Closing.antt =====
-- slurmweb/views/agent.py, job_live(): how a live session starts, and how each of its ends closes the
-- socket.
use slurm_web.Base.{ℕ, String, ◌≡◌, refl, Bool, Option, none, some, [], if◌then◌else◌, eqb}
use slurm_web.Py.Value.{Value}
use slurm_web.Py.Error.{Exn, http_error, live_error, connection_closed}
use slurm_web.Py.Result.{Result, ok, raised}
use slurm_web.Py.Exec.{Exec, raise, try_except, rescue, ◌>>=◌}
use slurm_web.Live.{
  authenticate_websocket, finish_websocket, Decode, close_forbidden, close_not_found,
  close_internal,
}
use slurm_web.Live.Handshake.{IsPolite, finish_websocket-ok}
use slurm_web.Agent.Jobs
use slurm_web.Agent.Jobs.{User}
use slurm_web.Agent.Live.State.{Frame, Env, Live, init}
use slurm_web.Agent.Live.Control.{run_session}

-- {403: …, 404: …}.get(err.code, CLOSE_INTERNAL)
abbrev pub close_code : ℕ → ℕ
close_code code =
    if eqb code 403
    then close_forbidden
    else if eqb code 404
    then close_not_found
    else close_internal

-- the handler of an HTTPException
abbrev pub as_live_error : Exn → Exn
as_live_error (http_error code description) = live_error (close_code code) description
as_live_error e = e

module _ {W : Type 0} (env : Env W) (in_nodeset : String → String → Result Bool)
    (show_exn : Exn → String) where
  -- _authorized_job, with the handler
  unfoldable pub authorized : User → ℕ → Exec W Value
  authorized user job =
      try_except (Jobs.job env.format in_nodeset env.api user job) (λ e. raise (as_live_error e))

  -- JobLiveSession(ws, job, job_data).run()
  unfoldable pub session : ℕ → ℕ → Value → Exec W (Unit {0})
  session turns job job_data w =
      let l : Live W = record {
        session = init job job_data (env.monotonic w).0;
        sent = [];
        world = (env.monotonic w).1;
      } in
      ((run_session env turns l).0, (run_session env turns l).1.world)

  abbrev pub finish : Option (ℕ × String) → Exec W (Unit {0})
  finish error = finish_websocket env.loads env.socket Frame.error error

  -- the handlers of job_live; str(err) is `show_exn`
  abbrev pub ending : Exn → Option (ℕ × String)
  ending connection_closed = none
  ending (live_error code message) = some (code, message)
  ending e = some (close_internal, show_exn e)

  unfoldable pub close_after : Exn → Exec W (Unit {0})
  close_after e = finish (ending e)

  -- the part of job_live in the try block, watched for so many turns
  unfoldable pub live : ℕ → Decode User → Option String → ℕ → Exec W (Unit {0})
  live turns decode header job = do
    (token, user) ← authenticate_websocket env.loads decode env.socket header
    job_data ← authorized user job
    session turns job job_data

  -- job_live, after accept_websocket; the loop ends by exceptions only
  unfoldable pub job_live : ℕ → Decode User → Option String → ℕ → Exec W (Unit {0})
  job_live turns decode header job = try_except (live turns decode header job) close_after

  caught :
      (polite : IsPolite env.socket) (r : Result (Unit {0}) × W) → (rescue close_after r).0 ≡ ok tt
  unfolding close_after
  caught polite (ok tt, w) = refl
  caught polite (raised e, w) =
      finish_websocket-ok env.loads env.socket polite Frame.error (ending e) w

  -- However a live session starts, goes and ends, nothing is raised out of the view, if the socket
  -- raises nothing on a write but that its connection is closed.
  pub job_live-ok :
      (polite : IsPolite env.socket) (turns : ℕ) (decode : Decode User) (header : Option String)
      (job : ℕ) (w : W)
      → (job_live turns decode header job w).0 ≡ ok tt
  unfolding job_live close_after
  job_live-ok polite turns decode header job w = caught polite (live turns decode header job w)
