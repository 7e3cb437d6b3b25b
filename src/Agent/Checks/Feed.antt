-- ===== src/Agent/Checks/Feed.antt =====
-- slurmweb/views/agent.py, job_check_events(): the stream of the check events, for clients without a
-- WebSocket. Times are in milliseconds.
pub mod Ends
pub mod Tests
use slurm_web.Base.{
  ℕ, zero, suc, ◌+◌, String, Bool, true, false, Option, none, some, List, [], ◌∷◌, ◌++◌, ℤ, pos,
  ltb_ℤ, ltb, leb, keep, to_ℕ, parse_int, codes, if◌then◌else◌,
}
use slurm_web.Py.Value.{Value}
use slurm_web.Py.Error.{http_error}
use slurm_web.Py.Result.{Result, ok, raised}
use slurm_web.Py.Exec.{Exec, pure, gets, modify, choose, when, ◌>>=◌, ◌>>◌}
use slurm_web.Agent.Checks.{Event, job_check_events}

-- What is yielded.
pub data Line : Type 0 where
  retry : Line
  check : (cursor : ℤ) → Event → Line
  heartbeat : (cursor : ℤ) → Line

-- The variables of generate(), and what it has yielded so far.
pub record Feed (W : Type 0) : Type 0 where
  pub cursor : ℤ
  pub heartbeat : ℕ
  pub yielded : List Line
  pub world : W

-- The files of the events, the clock, and the server that takes what is yielded, which may end the
-- stream.
pub record Env (W : Type 0) : Type 0 where
  pub check_files : W → ℕ → Option (List (Option (List ℕ)))
  pub load_event : List ℕ → Option Value
  pub monotonic : W → ℕ × W
  pub sleep : ℕ → W → W
  pub take : Line → Exec W (Unit {0})

-- the parameter `cursor`, which is 0 where there is none
unfoldable pub cursor_of : Option String → Result ℕ
cursor_of none = ok 0
cursor_of (some text) = elim (parse_int (codes text)) [
  | none ↦ raised (http_error 400 "cursor must be an integer")
  | some n ↦ ok (to_ℕ n)
]

module _ {W : Type 0} (env : Env W) where
  abbrev pub outside : {A : Type 0} → Exec W A → Exec (Feed W) A
  outside m f = ((m f.world).0, record f { world = (m f.world).1 })

  abbrev pub monotonic : Exec (Feed W) ℕ
  monotonic = outside (λ w. (ok (env.monotonic w).0, (env.monotonic w).1))

  abbrev pub sleep : ℕ → Exec (Feed W) (Unit {0})
  sleep t = outside (λ w. (ok tt, env.sleep t w))

  -- yield
  unfoldable pub emit : Line → Exec (Feed W) (Unit {0})
  emit line = do
    modify (λ f. record f { yielded = f.yielded ++ (line ∷ []) })
    outside (env.take line)

  abbrev pub advance : Event → Feed W → Feed W
  advance event f = record f { cursor = if ltb_ℤ f.cursor event.seq then event.seq else f.cursor }

  -- the loop over the events
  unfoldable pub emit_events : List Event → Exec (Feed W) (Unit {0})
  emit_events [] = pure tt
  emit_events (event ∷ events) = do
    modify (advance event)
    cursor ← gets (λ f. f.cursor)
    emit (Line.check cursor event)
    emit_events events

  abbrev pub beat : Exec (Feed W) (Unit {0})
  beat = do
    cursor ← gets (λ f. f.cursor)
    emit (Line.heartbeat cursor)
    now ← monotonic
    modify (λ f. record f { heartbeat = now })

  -- the body of the loop up to the sleep
  unfoldable pub serve : ℕ → Exec (Feed W) (Unit {0})
  serve job = do
    events ← outside (λ w. (job_check_events env.load_event job (env.check_files w job), w))
    cursor ← gets (λ f. f.cursor)
    emit_events (keep (λ e. ltb_ℤ cursor e.seq) events)
    now ← monotonic
    due ← gets (λ f. leb (f.heartbeat + 10000) now)
    when due beat

  -- the body of the loop
  unfoldable pub pass : ℕ → Exec (Feed W) (Unit {0})
  pass job = do serve job; sleep 500

  -- the loop, of at most so many passes: did it end on its own?
  unfoldable pub passes : ℕ → ℕ → ℕ → Exec (Feed W) Bool
  passes zero job started = pure false
  passes (suc n) job started = do
    now ← monotonic
    choose (ltb now (started + 30000)) (pass job >> passes n job started) (pure true)

  -- generate
  unfoldable pub generate : ℕ → ℕ → Exec (Feed W) Bool
  generate n job = do
    started ← monotonic
    modify (λ f. record f { heartbeat = started })
    emit Line.retry
    passes n job started
