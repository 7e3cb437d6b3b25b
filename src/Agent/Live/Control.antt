-- ===== src/Agent/Live/Control.antt =====
-- slurmweb/views/agent.py, JobLiveSession: the messages of the client, the service of the channels,
-- the loop, and job_live() around it.
use slurm_web.Base.{
  ℕ, zero, suc, ◌+◌, String, Bool, true, false, Option, none, some, ◌==◌, not, if◌then◌else◌, leb,
  pos, Dict, map, ◌^^◌, ◌&&◌, ◌||◌,
}
use slurm_web.Py.Value.{Value, null, int, str, dict, end, truthy, equals_str}
use slurm_web.Py.Error.{Exn, http_of, live_error}
use slurm_web.Py.Result.{Result, ok, raised}
use slurm_web.Py.Ops.{get_default, getitem}
use slurm_web.Py.Exec.{Exec, lift, pure, raise, try_except, when, ◌>>=◌, ◌>>◌}
use slurm_web.Live.{receive_json, close_bad_request}
use slurm_web.Agent.Errors.{slurmrest}
use slurm_web.Agent.Checks.{Snapshot, checks_snapshot}
use slurm_web.Agent.Summary.{job_is_active}
use slurm_web.Agent.Live.State.{
  Frame, Stream, Session, Env, Live, channels_from, names_of, coerce_offset, streams_of,
  legacy_streams,
}
use slurm_web.Agent.Live.{
  max_ℤ, outside, monotonic, time, self, assign, send, events, push_job, push_checks, push_log,
  push_gpu,
}

-- _log_streams_from
unfoldable pub log_streams_from : Value → Result (Dict Stream)
log_streams_from message = elim (get_default message "streams" null) [
  | raised e ↦ raised e
  | ok null ↦ elim (get_default message "stream" (str "stdout")) [
    | raised e ↦ raised e
    | ok stream ↦ elim (get_default message "offset" (int (pos 0))) [
      | raised e ↦ raised e
      | ok offset ↦ legacy_streams stream offset
    ]
  ]
  | ok streams ↦ streams_of streams
]

-- v or {}
abbrev pub or_empty : Value → Value
or_empty v = if truthy v then v else dict end

-- {name: state["offset"] for …}
abbrev pub offsets : Dict Stream → Dict ℕ
offsets streams = map (λ ((name, state) : String × Stream). (name, state.offset)) streams

module _ {W : Type 0} (env : Env W) where
  -- the handler of refresh_job, and what a call of the client gives
  abbrev pub report : Exn → Option (ℕ × String) → Exec (Live W) (Unit {0})
  report e none = raise e
  report e (some (code, message)) = send env (Frame.error code message)

  abbrev pub reload : Exec (Live W) (Unit {0})
  reload = do
    job ← self env (λ s. s.job_id)
    job_data ← outside env (slurmrest env.format (env.api.job job))
    assign env (λ s. record s { job_data = job_data })

  -- refresh_job
  unfoldable pub refresh_job : Exec (Live W) (Unit {0})
  refresh_job = do
    try_except reload (λ e. report e (http_of e))
    job_data ← self env (λ s. s.job_data)
    active ← lift (job_is_active job_data)
    now ← monotonic env
    assign env (λ s. record s { next_job = now + (if active then 2000 else 15000) })
    wanted ← self env (λ s. s.channels.job)
    when wanted (push_job env false)

  abbrev pub service_gpu : ℕ → Exec (Live W) (Unit {0})
  service_gpu now = push_gpu env >> assign env (λ s. record s { next_gpu = now + 2000 })

  abbrev pub heartbeat : Exec (Live W) (Unit {0})
  heartbeat = do
    ts ← time env
    cursor ← self env (λ s. s.checks_cursor)
    send env (Frame.heartbeat ts cursor)

  abbrev pub is_subscribed : Session → Bool
  is_subscribed s = s.channels.checks || s.channels.log || s.channels.gpu || s.channels.job

  -- service, for a session with a channel
  unfoldable pub service_channels : Exec (Live W) (Unit {0})
  service_channels = do
    now ← monotonic env
    due_job ← self env (λ s. leb s.next_job now)
    when due_job refresh_job
    checks ← self env (λ s. s.channels.checks)
    when checks (push_checks env)
    log ← self env (λ s. s.channels.log && not s.log_paused)
    when log (push_log env)
    due_gpu ← self env (λ s. s.channels.gpu && leb s.next_gpu now)
    when due_gpu (service_gpu now)
    later ← monotonic env
    due_heartbeat ← self env (λ s. leb (s.last_sent + 10000) later)
    when due_heartbeat heartbeat

  -- service
  unfoldable pub service : Exec (Live W) (Unit {0})
  service = do active ← self env is_subscribed; when active service_channels

  abbrev pub snapshot : Exec (Live W) Snapshot
  snapshot = do
    es ← events env
    now ← time env
    job ← self env (λ s. s.job_id)
    lift (checks_snapshot env.parse_time job es now)

  abbrev pub send_checks : Exec (Live W) (Unit {0})
  send_checks = do
    found ← snapshot
    assign env (λ s. record s { checks_cursor = max_ℤ s.checks_cursor found.cursor })
    send env (Frame.checks found)

  -- subscribe
  unfoldable pub subscribe : Value → Exec (Live W) (Unit {0})
  subscribe message = do
    asked ← lift (get_default message "channels" null)
    channels ← lift (channels_from asked)
    assign env (λ s. record s { channels = channels })
    value ← lift (get_default message "checks_cursor" (int (pos 0)))
    cursor ← lift (coerce_offset value)
    assign env (λ s. record s { checks_cursor = pos cursor })
    log ← lift (get_default message "log" null)
    streams ← lift (log_streams_from (or_empty log))
    assign env (λ s. record s { log_streams = streams; log_paused = false })
    when channels.checks send_checks
    when channels.job (push_job env true)
    assign env (λ s. record s { next_gpu = 0 })
    final ← self env (λ s. s.checks_cursor)
    send env (Frame.subscribed (names_of channels) final (offsets streams))

  -- the answer to a message of type "log"
  unfoldable pub follow_log : Value → Exec (Live W) (Unit {0})
  follow_log message = do
    streams ← lift (log_streams_from message)
    assign env (λ s. record s {
      log_streams = streams;
      log_paused = false;
      channels = record s.channels { log = true };
    })

  -- message.get("channel", "log") == "log"
  unfoldable pub pause : Bool → Value → Exec (Live W) (Unit {0})
  pause paused message = do
    channel ← lift (get_default message "channel" (str "log"))
    when (equals_str channel "log") (assign env (λ s. record s { log_paused = paused }))

  -- the answer to a message by its type
  unfoldable pub dispatch_other : String → Value → Exec (Live W) (Unit {0})
  dispatch_other kind message =
      if kind == "log"
      then follow_log message
      else if kind == "pause"
      then pause true message
      else if kind == "resume"
      then pause false message
      else if kind == "ping"
      then (time env >>= λ ts. send env (Frame.pong ts))
      else if kind == "auth"
      then pure tt
      else raise (live_error close_bad_request ("unknown message type " ^^ kind))

  unfoldable pub dispatch : String → Value → Exec (Live W) (Unit {0})
  dispatch kind message =
      if kind == "subscribe" then subscribe message else dispatch_other kind message

  -- handle, on the messages of receive_json, whose type is a text
  unfoldable pub handle : Value → Exec (Live W) (Unit {0})
  handle message = do
    kind ← lift (getitem message "type")
    elim kind [ str s ↦ dispatch s message | v ↦ raise Exn.type_error ]

  abbrev pub handle_one : Option Value → Exec (Live W) (Unit {0})
  handle_one none = pure tt
  handle_one (some message) = handle message

  -- one turn of the loop of run
  unfoldable pub turn : Exec (Live W) (Unit {0})
  turn = do
    job_data ← self env (λ s. s.job_data)
    active ← lift (job_is_active job_data)
    message ← outside env (receive_json env.loads env.socket (if active then 500 else 2000))
    handle_one message
    service

  -- `turns` turns of the loop, which only an exception ends
  unfoldable pub turns : ℕ → Exec (Live W) (Unit {0})
  turns zero = pure tt
  turns (suc n) = do turn; turns n

  -- run, watched for so many turns
  unfoldable pub run_session : ℕ → Exec (Live W) (Unit {0})
  run_session n = do job ← self env (λ s. s.job_id); send env (Frame.ready job); turns n
