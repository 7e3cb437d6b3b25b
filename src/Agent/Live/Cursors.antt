-- ===== src/Agent/Live/Cursors.antt =====
-- The cursor of the channel `checks` over a live session (slurmweb/views/agent.py): no event is sent
-- twice.
use slurm_web.Base.{
  ◌≡◌, refl, Bool, true, List, [], ◌∷◌, ◌++◌, ℤ, ltb_ℤ, ◌≤ℤ◌, arith, append-nil, append_assoc, sym,
  ◌∙◌, ap, Bool-cases, inl, inr, ◌⊎◌,
}
use slurm_web.Py.Result.{Result-cases}
use slurm_web.Py.Exec.{Exec, ◌>>◌}
use slurm_web.Py.Exec.Keeps.{Keeps, IsPreorder, keeps_rules, proceed-Keeps, bind-Keeps, when-Keeps}
use slurm_web.Agent.Checks.{Event}
use slurm_web.Agent.Live.State.{Frame, Session, Env, Live}
use slurm_web.Agent.Live.{outside, assign, send, push_events, push_checks}

-- The cursor of a client that has got a frame, and the test that the frame is new to it.
abbrev pub next : ℤ → Frame → ℤ
next c (Frame.check e) = e.seq
next c f = c

abbrev pub is_new : ℤ → Frame → Bool
is_new c (Frame.check e) = ltb_ℤ c e.seq
is_new c f = true

-- The events among the frames have numbers that grow from the first cursor to at most the second.
abbrev pub Climbs : ℤ → List Frame → ℤ → Type 0
Climbs c [] d = c ≤ℤ d
Climbs c (f ∷ fs) d = (is_new c f ≡ true) × Climbs (next c f) fs d

is_new_below : (c d : ℤ) (f : Frame) → c ≤ℤ d → is_new d f ≡ true → is_new c f ≡ true
is_new_below c d (Frame.check e) h n = ground (arith, h, n)
is_new_below c d (Frame.ready _) h n = refl
is_new_below c d (Frame.pong _) h n = refl
is_new_below c d (Frame.checks _) h n = refl
is_new_below c d (Frame.job _) h n = refl
is_new_below c d (Frame.subscribed _ _ _) h n = refl
is_new_below c d (Frame.heartbeat _ _) h n = refl
is_new_below c d (Frame.error _ _) h n = refl
is_new_below c d (Frame.log _ _) h n = refl
is_new_below c d (Frame.merged _ _) h n = refl
is_new_below c d (Frame.gpu _) h n = refl

next_below : (c d : ℤ) (f : Frame) → c ≤ℤ d → next c f ≤ℤ next d f
next_below c d (Frame.check e) h = omega arith
next_below c d (Frame.ready _) h = h
next_below c d (Frame.pong _) h = h
next_below c d (Frame.checks _) h = h
next_below c d (Frame.job _) h = h
next_below c d (Frame.subscribed _ _ _) h = h
next_below c d (Frame.heartbeat _ _) h = h
next_below c d (Frame.error _ _) h = h
next_below c d (Frame.log _ _) h = h
next_below c d (Frame.merged _ _) h = h
next_below c d (Frame.gpu _) h = h

Climbs-below : (c d : ℤ) (fs : List Frame) (e : ℤ) → c ≤ℤ d → Climbs d fs e → Climbs c fs e
Climbs-below c d [] e h k = omega (arith, h, k)
Climbs-below c d (f ∷ fs) e h (n, k) =
    (is_new_below c d f h n, Climbs-below (next c f) (next d f) fs e (next_below c d f h) k)

pub Climbs-append :
    (c : ℤ) (fs : List Frame) (d : ℤ) (gs : List Frame) (e : ℤ)
    → Climbs c fs d
    → Climbs d gs e
    → Climbs c (fs ++ gs) e
Climbs-append c [] d gs e h k = Climbs-below c d gs e h k
Climbs-append c (f ∷ fs) d gs e (n, h) k = (n, Climbs-append (next c f) fs d gs e h k)

module _ {W : Type 0} where
  -- What was sent between two states of a session climbs from the cursor to the cursor.
  abbrev pub Goes : Live W → Live W → Type 0
  Goes l m =
      (new : List Frame) × (m.sent ≡ l.sent ++ new)
      × Climbs l.session.checks_cursor new m.session.checks_cursor

  instance abbrev pub Goes_preorder : IsPreorder Goes
  Goes_preorder = record {
    same = λ l. ([], sym (append-nil l.sent), omega arith);
    chain = λ l m n (fs, e, h) (gs, e', k). (
      fs ++ gs,
      e' ∙ ap (λ xs. xs ++ gs) e ∙ append_assoc l.sent fs gs,
      Climbs-append _ fs _ gs _ h k,
    );
  }

module _ {W : Type 0} (env : Env W) where
  pub outside-Keeps : {A : Type 0} (m : Exec W A) → Keeps Goes (outside env m)
  outside-Keeps m = record { from = λ l. ([], sym (append-nil l.sent), omega arith) }

  -- an assignment that leaves the cursor
  pub assign-Keeps :
      (f : Session → Session)
      → ((s : Session) → (f s).checks_cursor ≡ s.checks_cursor)
      → Keeps Goes (assign env f)
  assign-Keeps f h = record {
    from = λ l. ([], sym (append-nil l.sent), rw (h l.session) (omega arith));
  }

  -- A frame was sent, or the socket raised; the cursor stays.
  send-sends :
      (f : Frame) (l : Live W)
      → ((send env f l).1.sent ≡ l.sent ++ (f ∷ [])) ⊎ ((send env f l).1.sent ≡ l.sent)
  unfolding send
  send-sends f l = elim (Result-cases (env.socket.send f l.world).0) [
    | inl (a, e) ↦ inl (rw e refl)
    | inr (x, e) ↦ inr (rw e refl)
  ]

  pub send-checks_cursor :
      (f : Frame) (l : Live W) → (send env f l).1.session.checks_cursor ≡ l.session.checks_cursor
  unfolding send
  send-checks_cursor f l = elim (Result-cases (env.socket.send f l.world).0) [
    | inl (a, e) ↦ rw e refl
    | inr (x, e) ↦ rw e refl
  ]

  -- A frame that the cursor lets pass takes it to the next one.
  send-Goes :
      (f : Frame) (l : Live W) (c : ℤ)
      → is_new c f ≡ true
      → c ≤ℤ next c f
      → next c f ≤ℤ l.session.checks_cursor
      → (new : List Frame) × ((send env f l).1.sent ≡ l.sent ++ new)
        × Climbs c new (send env f l).1.session.checks_cursor
  send-Goes f l c n g h = elim (send-sends f l) [
    | inl e ↦ (f ∷ [], e, (n, rw (send-checks_cursor f l) h))
    | inr e ↦ ([], e ∙ sym (append-nil l.sent), rw (send-checks_cursor f l) (omega (arith, g, h)))
  ]

  -- The frames of the other channels.
  pub send-Keeps :
      (f : Frame)
      → ((c : ℤ) → is_new c f ≡ true)
      → ((c : ℤ) → next c f ≡ c)
      → Keeps Goes (send env f)
  send-Keeps f n g = record {
    from = λ l.
        let e = g l.session.checks_cursor in
        send-Goes f l l.session.checks_cursor (n l.session.checks_cursor) (rw e (omega arith))
          (rw e (omega arith));
  }

  push_event-Keeps :
      (e : Event) (l : Live W)
      → ltb_ℤ l.session.checks_cursor e.seq ≡ true
      → Goes l
          ((assign env (λ s. record s { checks_cursor = e.seq }) >> send env (Frame.check e)) l).1
  push_event-Keeps e l h =
      send-Goes (Frame.check e) (record l { session = record l.session { checks_cursor = e.seq } })
        l.session.checks_cursor h (ground (arith, h)) (omega arith)

  push_events_from : (es : List Event) (l : Live W) → Goes l (push_events env es l).1
  unfolding push_events
  push_events_from [] l = Goes_preorder.same l
  push_events_from (e ∷ es) l = elim (Bool-cases (ltb_ℤ l.session.checks_cursor e.seq)) [
    | inl h ↦ rw h (
        proceed-Keeps {R = Goes} (λ _. push_events env es) l
          ((assign env (λ s. record s { checks_cursor = e.seq }) >> send env (Frame.check e)) l)
          (push_event-Keeps e l h) (λ _. record { from = push_events_from es }))
    | inr h ↦ rw h (push_events_from es l)
  ]

  pub push_events-Keeps : (es : List Event) → Keeps Goes (push_events env es)
  push_events-Keeps es = record { from = push_events_from es }

  pub push_checks-Keeps : Keeps Goes (push_checks env)
  unfolding push_checks
  push_checks-Keeps = search (keeps_rules, outside-Keeps, push_events-Keeps)

  -- the premises of the two rules above, by computation
  pub same_cursor : (c : ℤ) → c ≡ c
  same_cursor c = refl

  pub same_test : (b : Bool) → b ≡ b
  same_test b = refl

  pub ruleset quiet_rules =
      (keeps_rules, outside-Keeps, assign-Keeps, send-Keeps, same_cursor, same_test)
