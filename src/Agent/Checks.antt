-- ===== src/Agent/Checks.antt =====
-- slurmweb/views/agent.py: the events that the tasks of a job write, and the snapshot of its checks.
pub mod Order
pub mod Feed
pub mod Tests
use slurm_web.Base.{
  ℕ, zero, suc, ◌+◌, ◌-◌, String, Bool, true, false, Option, none, some, List, [], ◌∷◌, ◌++◌, ◌&&◌,
  not, if◌then◌else◌, length, drop, eqb, ltb, ℤ, pos, negsuc, ltb_ℤ, ◌-ℤ◌, to_ℕ, map, codes, Text,
}
use slurm_web.Py.Value.{Value, null, boolean, int, str, list, dict, end, equals_str}
use slurm_web.Py.Equal.{same_value, equals_int, to_int}
use slurm_web.Py.Error.{Exn}
use slurm_web.Py.Result.{Result, ok, raised, ◌>>=◌}
use slurm_web.Py.Ops.{get_default, setitem, as_str}
use slurm_web.Agent.Excerpt.{after_line}

-- An event that was read, with its `seq`, a number.
pub record Event : Type 0 where
  pub seq : ℤ
  pub fields : Value

-- isinstance(v, int), with the number; a bool is one
abbrev pub number_of : Value → Option ℤ
number_of (int n) = some n
number_of (boolean b) = some (to_int b)
number_of v = none

-- for raw in stream
pub add_to_line : ℕ → List (List ℕ) → List (List ℕ)
add_to_line b [] = (b ∷ []) ∷ []
add_to_line b (line ∷ lines) = (b ∷ line) ∷ lines

pub lines_of : List ℕ → List (List ℕ)
lines_of [] = []
lines_of (b ∷ bs) =
    let rest = lines_of bs in if eqb b 10 then (b ∷ []) ∷ rest else add_to_line b rest

-- The end of a file that is read, without the line that is cut.
pub tail_of : ℕ → List ℕ → List ℕ
tail_of zero content = content
tail_of (suc n) content = after_line (drop (suc n) content)

pub events_tail : List ℕ → List ℕ
events_tail content = tail_of (length content - 2000000) content

-- the test of the loop: none for a line to skip
pub keep_event : ℕ → Value → Result (Option Event)
keep_event job event = do
  job_id ← get_default event "job_id" null
  seq ← get_default event "seq" null
  ok (
      if not (equals_int job_id job) then none else elim (number_of seq) [
        | none ↦ none
        | some n ↦ some (record { seq = n; fields = event })
      ])

-- json.loads(raw.decode("utf-8")), where it raises neither of the two
pub read_event : (List ℕ → Option Value) → ℕ → List ℕ → Result (Option Event)
read_event loads job raw = elim (loads raw) [ none ↦ ok none | some event ↦ keep_event job event ]

pub read_events : (List ℕ → Option Value) → ℕ → List (List ℕ) → Result (List Event)
read_events loads job [] = ok []
read_events loads job (raw ∷ lines) = do
  found ← read_event loads job raw
  rest ← read_events loads job lines
  ok (elim found [ none ↦ rest | some event ↦ event ∷ rest ])

-- the loop over the files; none is a file that cannot be read
pub read_files : (List ℕ → Option Value) → ℕ → List (Option (List ℕ)) → Result (List Event)
read_files loads job [] = ok []
read_files loads job (none ∷ files) = read_files loads job files
read_files loads job (some content ∷ files) = do
  events ← read_events loads job (lines_of (events_tail content))
  rest ← read_files loads job files
  ok (events ++ rest)

-- events.sort(key=…), which keeps the order of equal keys
pub insert_event : Event → List Event → List Event
insert_event e [] = e ∷ []
insert_event e (f ∷ fs) = if ltb_ℤ f.seq e.seq then f ∷ insert_event e fs else e ∷ f ∷ fs

pub sort_events : List Event → List Event
sort_events [] = []
sort_events (e ∷ es) = insert_event e (sort_events es)

-- events[-10000:]
abbrev pub last_events : List Event → List Event
last_events events = drop (length events - 10000) events

-- _job_check_events; none is a job without a directory
pub job_check_events :
    (List ℕ → Option Value) → ℕ → Option (List (Option (List ℕ))) → Result (List Event)
job_check_events loads job none = ok []
job_check_events loads job (some files) = do
  events ← read_files loads job files
  ok (last_events (sort_events events))

-- The keys of `latest`; a list and a dictionary have no hash.
abbrev pub is_hashable : Value → Bool
is_hashable (list vs) = false
is_hashable (dict fs) = false
is_hashable v = true

abbrev pub Key : Type 0
Key = Value × Value × Value

pub event_key : Event → Result Key
event_key event = do
  step_id ← get_default event.fields "step_id" null
  task_id ← get_default event.fields "task_id" null
  check_id ← get_default event.fields "check_id" null
  if is_hashable step_id && is_hashable task_id && is_hashable check_id
      then ok (step_id, task_id, check_id)
      else raised Exn.type_error

abbrev pub is_same_key : Key → Key → Bool
is_same_key (a, b, c) (x, y, z) = same_value a x && same_value b y && same_value c z

-- latest[key] = dict(event)
pub put_latest : List (Key × Event) → Key → Event → List (Key × Event)
put_latest [] key event = (key, event) ∷ []
put_latest ((k, e) ∷ latest) key event =
    if is_same_key k key then (k, event) ∷ latest else (k, e) ∷ put_latest latest key event

pub collect_latest : List (Key × Event) → List Event → Result (List (Key × Event))
collect_latest latest [] = ok latest
collect_latest latest (event ∷ events) = do
  key ← event_key event
  collect_latest (put_latest latest key event) events

-- An event that was last seen more than 15 seconds ago; the times are in milliseconds.
pub stall : ℕ → Event → Option ℤ → Result Event
stall now event none = ok event
stall now event (some updated) =
    if ltb_ℤ (pos 15000) (pos now -ℤ updated)
    then (setitem event.fields "state" (str "stalled") >>= λ fields.
        setitem fields "stale_seconds" (int (pos now -ℤ updated)) >>= λ stalled.
        ok (record event { fields = stalled }))
    else ok event

-- the body of the loop over latest.values(); `parse_time` is datetime.fromisoformat
pub check_stalled : (String → Option ℤ) → ℕ → Event → Result Event
check_stalled parse_time now event = do
  state ← get_default event.fields "state" null
  if not (equals_str state "running")
      then ok event
      else (get_default event.fields "timestamp" (str "") >>= λ timestamp.
          as_str timestamp >>= λ text. stall now event (parse_time text))

pub check_all : (String → Option ℤ) → ℕ → List (Key × Event) → Result (List Event)
check_all parse_time now [] = ok []
check_all parse_time now ((key, event) ∷ latest) = do
  checked ← check_stalled parse_time now event
  rest ← check_all parse_time now latest
  ok (checked ∷ rest)

-- max((event["seq"] for event in events), default=0)
pub max_seq : ℤ → List Event → ℤ
max_seq n [] = n
max_seq n (e ∷ es) = max_seq (if ltb_ℤ n e.seq then e.seq else n) es

pub last_seq : List Event → ℤ
last_seq [] = pos 0
last_seq (e ∷ es) = max_seq e.seq es

pub record Snapshot : Type 0 where
  pub job_id : ℕ
  pub cursor : ℤ
  pub generated_at : ℕ
  pub checks : List Event

-- _checks_snapshot, on the events that were read and the time
pub checks_snapshot : (String → Option ℤ) → ℕ → List Event → ℕ → Result Snapshot
checks_snapshot parse_time job events now = do
  latest ← collect_latest [] events
  checked ← check_all parse_time now latest
  ok (record {
    job_id = job;
    cursor = last_seq events;
    generated_at = now;
    checks = sort_events checked;
  })
