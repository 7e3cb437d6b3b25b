-- ===== src/Agent/Checks/Feed/Ends.antt =====
-- The end of the stream of the check events (slurmweb/views/agent.py).
use slurm_web.Base.{
  ℕ, zero, suc, ◌+◌, ◌*◌, ◌≤◌, ◌≡◌, ◌≢◌, false, List, [], ◌∷◌, ltb, arith, Bool-cases, inl, inr,
}
use slurm_web.Py.Result.{Result, ok}
use slurm_web.Py.Exec.{modify, proceed-eq-ok, proceed-ok}
use slurm_web.Py.Exec.Keeps.{Keeps, IsPreorder, keeps_rules, proceed-Keeps}
use slurm_web.Agent.Checks.{Event}
use slurm_web.Agent.Checks.Feed.{
  Line, Feed, Env, outside, monotonic, sleep, advance, emit, emit_events, serve, pass, passes,
  generate,
}

-- `at` tells the time of a world: the clock shows it and does not go back, a sleep lasts at least as
-- long as it is told to, and what the server does takes no negative time.
pub record IsClock {W : Type 0} (env : Env W) (at : W → ℕ) : Type 0 where
  pub shown : (w : W) → at w ≤ (env.monotonic w).0
  pub gone_on : (w : W) → (env.monotonic w).0 ≤ at (env.monotonic w).1
  pub slept : (t : ℕ) (w : W) → at w + t ≤ at (env.sleep t w)
  pub taken : (line : Line) (w : W) → at w ≤ at (env.take line w).1

module _ {W : Type 0} (env : Env W) (at : W → ℕ) (clock : IsClock env at) where
  abbrev Later : Feed W → Feed W → Type 0
  Later f g = at f.world ≤ at g.world

  instance abbrev Later_preorder : IsPreorder Later
  Later_preorder = record { same = λ f. omega arith; chain = λ f g h p q. omega (arith, p, q) }

  modify-Keeps :
      (step : Feed W → Feed W)
      → ((f : Feed W) → at f.world ≡ at (step f).world)
      → Keeps Later (modify step)
  modify-Keeps step h = record { from = λ f. omega (arith, h f) }

  emit-Keeps : (line : Line) → Keeps Later (emit env line)
  unfolding emit
  emit-Keeps line = record { from = λ f. clock.taken line f.world }

  monotonic-Keeps : Keeps Later (monotonic env)
  monotonic-Keeps = record { from = λ f. omega (arith, clock.shown f.world, clock.gone_on f.world) }

  reading-Keeps : {A : Type 0} (read : W → Result A) → Keeps Later (outside env (λ w. (read w, w)))
  reading-Keeps read = record { from = λ f. omega arith }

  emit_events-Keeps : (events : List Event) → Keeps Later (emit_events env events)
  unfolding emit_events
  emit_events-Keeps [] = search keeps_rules
  emit_events-Keeps (event ∷ events) = record {
    from = λ f.
        let g = advance env event f in
        proceed-Keeps {R = Later} (λ _. emit_events env events) f
          (emit env (Line.check g.cursor event) g) ((emit-Keeps (Line.check g.cursor event)).from g)
          (λ _. emit_events-Keeps events);
  }

  serve-Keeps : (job : ℕ) → Keeps Later (serve env job)
  unfolding serve
  serve-Keeps job =
      search
        (keeps_rules, modify-Keeps, emit-Keeps, emit_events-Keeps, monotonic-Keeps, reading-Keeps)
        depth 30

  -- A pass that does not raise takes half a second at least.
  pass_takes :
      (job : ℕ) (f : Feed W)
      → (pass env job f).0 ≡ ok tt
      → at f.world + 500 ≤ at (pass env job f).1.world
  unfolding pass
  pass_takes job f h =
      let (a, e, h') = proceed-eq-ok (λ _. sleep env 500) (serve env job f) h in
      rw (proceed-ok (λ _. sleep env 500) (serve env job f) a e)
        (omega (arith, (serve-Keeps job).from f, clock.slept 500 (serve env job f).1.world))

  passes-ends :
      (n job started : ℕ) (f : Feed W)
      → started + 30000 ≤ at f.world + 500 * n
      → (passes env (suc n) job started f).0 ≢ ok false
  unfolding passes
  passes-ends zero job started f h =
      let now = (env.monotonic f.world).0 in
      let late : at f.world ≤ now = clock.shown f.world in
      elim (Bool-cases (ltb now (started + 30000))) [
        | inl t ↦ absurd (ground (arith, h, late, t))
        | inr t ↦ rw t (λ q. cc)
      ]
  passes-ends (suc n) job started f h =
      let now = (env.monotonic f.world).0 in
      let g = record f { world = (env.monotonic f.world).1 } in
      let late : at f.world ≤ now = clock.shown f.world in
      let later : now ≤ at g.world = clock.gone_on f.world in
      elim (Bool-cases (ltb now (started + 30000))) [
        | inl t ↦ rw t (λ q.
            let (a, e, r) =
              proceed-eq-ok (λ _. passes env (suc n) job started) (pass env job g) q in
            passes-ends n job started (pass env job g).1
              (omega (arith, h, late, later, pass_takes job g e)) r)
        | inr t ↦ rw t (λ q. cc)
      ]

  -- On a clock that goes on, the stream ends: after 61 passes at most it has run for its 30 seconds, if
  -- the server has not ended it before.
  pub generate-ends : (job : ℕ) (f : Feed W) → (generate env 61 job f).0 ≢ ok false
  unfolding generate
  generate-ends job f h =
      let started = (env.monotonic f.world).0 in
      let g = record f { heartbeat = started; world = (env.monotonic f.world).1 } in
      let (a, e, r) = proceed-eq-ok (λ _. passes env 61 job started) (emit env Line.retry g) h in
      passes-ends 60 job started (emit env Line.retry g).1
        (omega (arith, clock.gone_on f.world, (emit-Keeps Line.retry).from g)) r
