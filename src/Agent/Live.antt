-- ===== src/Agent/Live.antt =====
-- slurmweb/views/agent.py, JobLiveSession: the methods of the agent's side of a live session.
pub mod State
pub mod Control
pub mod Cursors
pub mod Serving
pub mod Complete
pub mod Closing
pub mod Tests
use slurm_web.Base.{
  ℕ, zero, suc, ◌+◌, ◌-◌, String, Bool, true, false, Option, none, some, List, [], ◌∷◌, ◌++◌, ◌==◌,
  ◌&&◌, ◌||◌, not, if◌then◌else◌, length, leb, ℤ, pos, ltb_ℤ, Dict, put, map, ◌^^◌, eqb, remove,
}
use slurm_web.Py.Value.{
  Value, null, int, str, list, dict, end, truthy, fields_of, of_fields, equals_str,
}
use slurm_web.Py.Equal.{same_value}
use slurm_web.Py.Error.{Exn, http_of, http_error, live_error, connection_closed}
use slurm_web.Py.Result.{Result, ok, raised, ◌>>=◌ as ◌>>>=◌}
use slurm_web.Py.Ops.{get_default, getitem, iterate}
use slurm_web.Py.Exec.{Exec, lift, pure, raise, gets, modify, try_except, choose, when, ◌>>=◌, ◌>>◌}
use slurm_web.Live.{
  Socket, receive_json, authenticate_websocket, finish_websocket, Decode, close_bad_request,
  close_forbidden, close_not_found, close_internal,
}
use slurm_web.Agent.Errors.{slurmrest}
use slurm_web.Agent.Gpus.{gpu_telemetry}
use slurm_web.Agent.Logs.{Chunk, log_path, read_log_chunk}
use slurm_web.Agent.Excerpt.{Excerpt, error_excerpt}
use slurm_web.Agent.Checks.{Event, Snapshot, job_check_events, checks_snapshot}
use slurm_web.Agent.Summary.{Summary, job_is_active, job_summary, same_summary}
use slurm_web.Agent.Live.State.{
  Channels, Frame, Stream, Session, Env, Live, init, channels_from, names_of, coerce_offset,
  streams_of, legacy_streams,
}

abbrev pub max_ℤ : ℤ → ℤ → ℤ
max_ℤ a b = if ltb_ℤ a b then b else a

-- d with d[key] removed, on the fields of a dictionary
pub without : String → Value → Value
without key (dict fs) = dict (of_fields (remove (fields_of fs) key))
without key v = v

module _ {W : Type 0} (env : Env W) where
  -- what the session does in its world, and what it reads there
  abbrev pub outside : {A : Type 0} → Exec W A → Exec (Live W) A
  outside m l = ((m l.world).0, record l { world = (m l.world).1 })

  abbrev pub monotonic : Exec (Live W) ℕ
  monotonic = outside (λ w. (ok (env.monotonic w).0, (env.monotonic w).1))

  abbrev pub time : Exec (Live W) ℕ
  time = outside (λ w. (ok (env.time w).0, (env.time w).1))

  abbrev pub self : {A : Type 0} → (Session → A) → Exec (Live W) A
  self f = gets (λ l. f l.session)

  abbrev pub assign : (Session → Session) → Exec (Live W) (Unit {0})
  assign f = modify (λ l. record l { session = f l.session })

  abbrev pub reading : {A : Type 0} → (W → Result A) → Exec (Live W) A
  reading f = outside (λ w. (f w, w))

  -- send
  unfoldable pub send : Frame → Exec (Live W) (Unit {0})
  send frame = do
    outside (env.socket.send frame)
    modify (λ l. record l { sent = l.sent ++ (frame ∷ []) })
    now ← monotonic
    assign (λ s. record s { last_sent = now })

  abbrev pub events : Exec (Live W) (List Event)
  events = do
    job ← self (λ s. s.job_id)
    reading (λ w. job_check_events env.load_event job (env.check_files w job))

  abbrev pub excerpt : W → Value → Result (Option Excerpt)
  excerpt w = error_excerpt env.is_error env.decode (env.files w) env.roots

  -- push_job
  abbrev pub announce : Bool → Option Summary → Summary → Exec (Live W) (Unit {0})
  announce true last summary = do
    assign (λ s. record s { last_job = some summary })
    send (Frame.job summary)
  announce false none summary = do
    assign (λ s. record s { last_job = some summary })
    send (Frame.job summary)
  announce false (some last) summary =
      when (not (same_summary summary last))
        (assign (λ s. record s { last_job = some summary }) >> send (Frame.job summary))

  unfoldable pub push_job : Bool → Exec (Live W) (Unit {0})
  push_job force = do
    job_data ← self (λ s. s.job_data)
    summary ← reading (λ w. job_summary (excerpt w) job_data)
    last ← self (λ s. s.last_job)
    announce force last summary

  -- the loop of push_checks
  unfoldable pub push_events : List Event → Exec (Live W) (Unit {0})
  push_events [] = pure tt
  push_events (event ∷ events) = do
    cursor ← self (λ s. s.checks_cursor)
    when (ltb_ℤ cursor event.seq)
        (assign (λ s. record s { checks_cursor = event.seq }) >> send (Frame.check event))
    push_events events

  -- push_checks
  unfoldable pub push_checks : Exec (Live W) (Unit {0})
  push_checks = do es ← events; push_events es

  -- state["path"] != "merged"
  abbrev pub is_merged : Option String → Bool
  is_merged none = false
  is_merged (some path) = path == "merged"

  abbrev pub set_stream : String → Stream → Exec (Live W) (Unit {0})
  set_stream name state = assign (λ s. record s { log_streams = put s.log_streams name state })

  abbrev pub text_of : Value → String
  text_of (str s) = s
  text_of v = ""

  -- the body of the loop for a stream that Slurm merges into stdout
  abbrev pub push_merged : Value → String → Stream → Exec (Live W) (Unit {0})
  push_merged stdout_path name state = when (not (is_merged state.path)) (
      set_stream name (record state { path = some "merged" })
      >> send (Frame.merged name (text_of stdout_path)))

  -- chunk["path"] != state["path"]
  abbrev pub is_path : String → Option String → Bool
  is_path path none = false
  is_path path (some known) = path == known

  abbrev pub is_empty : List ℕ → Bool
  is_empty [] = true
  is_empty (b ∷ bs) = false

  abbrev pub is_changed : Chunk → Stream → Bool
  is_changed chunk state =
      not (is_empty chunk.chunk) || chunk.rotated || not (is_path chunk.path state.path)

  abbrev pub send_chunk : String → Stream → Chunk → Exec (Live W) (Unit {0})
  send_chunk name state chunk = when (is_changed chunk state) (
      set_stream name (record { offset = chunk.next_offset; path = some chunk.path })
      >> send (Frame.log name chunk))

  -- the handler of an HTTPException, after which the streams that are left are not read
  abbrev pub pause_log : Exn → Option (ℕ × String) → Exec (Live W) Bool
  pause_log e none = raise e
  pause_log e (some (code, message)) = do
    send (Frame.error code message)
    assign (λ s. record s { log_paused = true })
    pure false

  -- the read of a stream: is the loop to go on?
  abbrev pub on_read : String → Stream → Result Chunk → Exec (Live W) Bool
  on_read name state (raised e) = pause_log e (http_of e)
  on_read name state (ok chunk) = send_chunk name state chunk >> pure true

  unfoldable pub push_chunk : Value → String → Stream → Exec (Live W) Bool
  push_chunk job_data name state = do
    read ←
        reading (λ w. ok (read_log_chunk (env.files w) env.roots job_data name state.offset 131072))
    on_read name state read

  -- name == "stderr" and stdout_path and _log_path(…, "stderr") == stdout_path
  unfoldable pub merges : Value → Value → String → Result Bool
  merges job_data stdout_path name =
      if name == "stderr" && truthy stdout_path
      then (log_path job_data "stderr" >>>= λ path. ok (same_value path stdout_path))
      else ok false

  unfoldable pub push_stream : Value → Value → String → Stream → Exec (Live W) Bool
  push_stream job_data stdout_path name state = do
    is_one ← lift (merges job_data stdout_path name)
    choose is_one (push_merged stdout_path name state >> pure true) (push_chunk job_data name state)

  -- the loop of push_log, over the streams that there are when it starts
  unfoldable pub push_streams : Value → Value → Dict Stream → Exec (Live W) (Unit {0})
  push_streams job_data stdout_path [] = pure tt
  push_streams job_data stdout_path ((name, state) ∷ streams) = do
    goes_on ← push_stream job_data stdout_path name state
    when goes_on (push_streams job_data stdout_path streams)

  -- push_log
  unfoldable pub push_log : Exec (Live W) (Unit {0})
  push_log = do
    job_data ← self (λ s. s.job_data)
    stdout_path ← lift (log_path job_data "stdout")
    streams ← self (λ s. s.log_streams)
    push_streams job_data stdout_path streams

  -- push_gpu
  unfoldable pub push_gpu : Exec (Live W) (Unit {0})
  push_gpu = do
    job ← self (λ s. s.job_id)
    job_data ← self (λ s. s.job_data)
    now ← time
    telemetry ← reading (λ w. gpu_telemetry env.to_ms env.tenths job job_data (env.gpu_files w) now)
    last ← self (λ s. s.last_gpu)
    let fingerprint = env.dumps (map (without "age_seconds") telemetry.nodes)
    when (not (is_path fingerprint last))
        (assign (λ s. record s { last_gpu = some fingerprint }) >> send (Frame.gpu telemetry))
