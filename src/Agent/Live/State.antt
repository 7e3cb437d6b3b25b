-- ===== src/Agent/Live/State.antt =====
-- slurmweb/views/agent.py: the state of a JobLiveSession, its frames, and its methods. Times are in
-- milliseconds.
use slurm_web.Base.{
  ℕ, ◌+◌, String, Bool, true, false, Option, none, some, List, [], ◌∷◌, ◌++◌, ◌==◌, ◌||◌,
  if◌then◌else◌, ℤ, pos, to_ℕ, Dict, put, codes, parse_int, Text,
}
use slurm_web.Py.Value.{Value, boolean, int, str, list, dict, truthy, items_of, fields_of}
use slurm_web.Py.Equal.{to_int}
use slurm_web.Py.Error.{Exn, live_error}
use slurm_web.Py.Result.{Result, ok, raised}
use slurm_web.Live.{Socket, close_bad_request}
use slurm_web.Agent.Api.{Api}
use slurm_web.Agent.Gpus.{Telemetry}
use slurm_web.Agent.Logs.{Files, Parts, Chunk}
use slurm_web.Agent.Checks.{Event, Snapshot}
use slurm_web.Agent.Summary.{Summary}

-- The set of the subscribed channels, of those in LIVE_CHANNELS.
pub record Channels : Type 0 where
  pub checks : Bool
  pub log : Bool
  pub gpu : Bool
  pub job : Bool

-- The frames that the session sends, by their `type`. That of a chunk is `log`, and so is `merged`.
pub data Frame : Type 0 where
  ready : (job_id : ℕ) → Frame
  pong : (ts : ℕ) → Frame
  checks : Snapshot → Frame
  check : Event → Frame
  job : Summary → Frame
  subscribed : (channels : List String) (checks : ℤ) (log : Dict ℕ) → Frame
  heartbeat : (ts : ℕ) (cursor : ℤ) → Frame
  error : (code : ℕ) (message : String) → Frame
  log : (stream : String) → Chunk → Frame
  merged : (stream path : String) → Frame
  gpu : Telemetry → Frame

-- the value of log_streams for a stream: its path is None before the first frame
pub record Stream : Type 0 where
  pub offset : ℕ
  pub path : Option String

-- The attributes.
pub record Session : Type 0 where
  pub job_id : ℕ
  pub job_data : Value
  pub channels : Channels
  pub checks_cursor : ℤ
  pub log_streams : Dict Stream
  pub log_paused : Bool
  pub last_gpu : Option String
  pub last_job : Option Summary
  pub next_gpu : ℕ
  pub next_job : ℕ
  pub last_sent : ℕ

-- What the session uses of the world outside: its socket, the clocks, the files of the moment, the
-- client of slurmrestd, and the parsers of the library.
pub record Env (W : Type 0) : Type 0 where
  pub socket : Socket W Frame
  pub loads : String → Option Value
  pub monotonic : W → ℕ × W
  pub time : W → ℕ × W
  pub api : Api W
  pub format : Value → String
  pub files : W → Files
  pub roots : List Parts
  pub check_files : W → ℕ → Option (List (Option (List ℕ)))
  pub load_event : List ℕ → Option Value
  pub parse_time : String → Option ℤ
  pub is_error : Text → Bool
  pub decode : List ℕ → Text
  pub gpu_files : W → List (Option Value)
  pub to_ms : Value → Result ℤ
  pub tenths : ℤ → ℕ → ℤ
  pub dumps : List Value → String

-- A session in its world, with the frames that were sent so far, the last one at the end.
pub record Live (W : Type 0) : Type 0 where
  pub session : Session
  pub sent : List Frame
  pub world : W

abbrev pub no_channels : Channels
no_channels = record { checks = false; log = false; gpu = false; job = false }

abbrev pub all_channels : Channels
all_channels = record { checks = true; log = true; gpu = true; job = true }

-- __init__, at the given time
unfoldable pub init : ℕ → Value → ℕ → Session
init job_id job_data now = record {
  job_id = job_id;
  job_data = job_data;
  channels = no_channels;
  checks_cursor = pos 0;
  log_streams = ("stdout", record { offset = 0; path = none }) ∷ [];
  log_paused = false;
  last_gpu = none;
  last_job = none;
  next_gpu = 0;
  next_job = now + 2000;
  last_sent = now;
}

-- set(channels), if all of them are known
unfoldable pub add_channel : Channels → Value → Option Channels
add_channel c (str name) =
    if name == "checks"
    then some (record c { checks = true })
    else if name == "log"
    then some (record c { log = true })
    else if name == "gpu"
    then some (record c { gpu = true })
    else if name == "job"
    then some (record c { job = true })
    else none
add_channel c v = none

unfoldable pub add_channels : Channels → List Value → Option Channels
add_channels c [] = some c
add_channels c (v ∷ vs) = elim (add_channel c v) [ none ↦ none | some d ↦ add_channels d vs ]

unfoldable pub unknown_channel : Option Channels → Result Channels
unknown_channel none = raised (live_error close_bad_request "unknown channel in subscribe")
unknown_channel (some c) = ok c

-- message.get("channels") or list(LIVE_CHANNELS), and its test
unfoldable pub channels_from : Value → Result Channels
channels_from (list vs) =
    if truthy (list vs)
    then unknown_channel (add_channels no_channels (items_of vs))
    else ok all_channels
channels_from v =
    if truthy v
    then raised (live_error close_bad_request "unknown channel in subscribe")
    else ok all_channels

-- sorted(self.channels)
abbrev pub names_of : Channels → List String
names_of c =
    (if c.checks then "checks" ∷ [] else [])
    ++ (if c.gpu then "gpu" ∷ [] else [])
    ++ (if c.job then "job" ∷ [] else [])
    ++ (if c.log then "log" ∷ [] else [])

abbrev pub bad_cursor : Exn
bad_cursor = live_error close_bad_request "cursors must be integers"

-- _coerce_offset
unfoldable pub coerce_offset : Value → Result ℕ
coerce_offset (int n) = ok (to_ℕ n)
coerce_offset (boolean b) = ok (to_ℕ (to_int b))
coerce_offset (str s) = elim (parse_int (codes s)) [
  | none ↦ raised bad_cursor
  | some n ↦ ok (to_ℕ n)
]
coerce_offset v = raised bad_cursor

abbrev bad_streams : {A : Type 0} → String → Result A
bad_streams message = raised (live_error close_bad_request message)

-- the loop of _log_streams_from
unfoldable pub parse_streams : Dict Stream → Dict Value → Result (Dict Stream)
parse_streams parsed [] = ok parsed
parse_streams parsed ((name, v) ∷ streams) =
    let rest = λ (offset : ℕ).
      parse_streams (put parsed name (record { offset = offset; path = none })) streams in
    if name == "stdout" || name == "stderr"
    then elim (coerce_offset v) [ raised e ↦ raised e | ok offset ↦ rest offset ]
    else bad_streams "stream must be stdout or stderr"

unfoldable pub streams_of : Value → Result (Dict Stream)
streams_of (dict fs) =
    if truthy (dict fs)
    then parse_streams [] (fields_of fs)
    else bad_streams "log.streams must map stream names to offsets"
streams_of v = bad_streams "log.streams must map stream names to offsets"

-- {stream: message.get("offset", 0)}; a name that is no text is none of the two, and one that has
-- no hash raises
unfoldable pub legacy_streams : Value → Value → Result (Dict Stream)
legacy_streams (str stream) offset = parse_streams [] ((stream, offset) ∷ [])
legacy_streams (list vs) offset = raised Exn.type_error
legacy_streams (dict fs) offset = raised Exn.type_error
legacy_streams v offset = bad_streams "stream must be stdout or stderr"
