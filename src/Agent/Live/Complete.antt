-- ===== src/Agent/Live/Complete.antt =====
-- The events that a live session sends on the channel `checks` (slurmweb/views/agent.py): none is
-- left out.
use slurm_web.Base.{
  ◌≡◌, refl, true, List, [], ◌∷◌, ◌++◌, ℤ, ltb_ℤ, ◌≤ℤ◌, arith, append-nil, append_assoc, sym, ◌∙◌,
  ap, Bool-cases, inl, inr, map, keep,
}
use slurm_web.Py.Result.{ok, Result-cases}
use slurm_web.Py.Exec.{proceed-eq-ok, proceed-ok}
use slurm_web.Agent.Checks.{Event}
use slurm_web.Agent.Live.State.{Frame, Env, Live}
use slurm_web.Agent.Live.{send, push_events}
use slurm_web.Agent.Live.Cursors.{send-checks_cursor}

-- The numbers grow, from above the given one.
abbrev pub Above : ℤ → List Event → Type 0
Above c [] = Unit {0}
Above c (e ∷ es) = (ltb_ℤ c e.seq ≡ true) × Above e.seq es

abbrev pub Grows : List Event → Type 0
Grows [] = Unit {0}
Grows (e ∷ es) = Above e.seq es

Above-Grows : (c : ℤ) (es : List Event) → Above c es → Grows es
Above-Grows c [] h = tt
Above-Grows c (e ∷ es) (h, k) = k

-- Nothing is left out of events above a number.
keep-Above : (c d : ℤ) (es : List Event) → d ≤ℤ c → Above c es → keep (λ e. ltb_ℤ d e.seq) es ≡ es
keep-Above c d [] h a = refl
keep-Above c d (e ∷ es) h (n, a) =
    let t : ltb_ℤ d e.seq ≡ true = ground (arith, h, n) in
    rw (t, keep-Above e.seq d es (ground (arith, h, n)) a) refl

module _ {W : Type 0} (env : Env W) where
  send-sent :
      (f : Frame) (l : Live W)
      → (send env f l).0 ≡ ok tt
      → (send env f l).1.sent ≡ l.sent ++ (f ∷ [])
  unfolding send
  send-sent f l h = elim (Result-cases (env.socket.send f l.world).0) [
    | inl (a, e) ↦ rw e refl
    | inr (x, e) ↦ let q = rw e at h in absurd (cc)
  ]

  abbrev at_cursor : Event → Live W → Live W
  at_cursor e l = record l { session = record l.session { checks_cursor = e.seq } }

  -- The events that follow one that was sent are sent too.
  rest_sent :
      (e : Event) (es : List Event) (l m : Live W)
      → m ≡ (send env (Frame.check e) (at_cursor e l)).1
      → (send env (Frame.check e) (at_cursor e l)).0 ≡ ok tt
      → Above e.seq es
      → ((push_events env es m).1.sent
          ≡ m.sent ++ map Frame.check (keep (λ f. ltb_ℤ m.session.checks_cursor f.seq) es))
      → (push_events env es m).1.sent ≡ l.sent ++ map Frame.check (e ∷ es)
  rest_sent e es l m q h a ih =
      let c : m.session.checks_cursor ≡ e.seq =
        ap (λ (k : Live W). k.session.checks_cursor) q
        ∙ send-checks_cursor env (Frame.check e) (at_cursor e l) in
      let k : keep (λ f. ltb_ℤ m.session.checks_cursor f.seq) es ≡ es =
        keep-Above e.seq m.session.checks_cursor es (rw c (omega arith)) a in
      let s : m.sent ≡ l.sent ++ (Frame.check e ∷ []) =
        ap (λ (k : Live W). k.sent) q ∙ send-sent (Frame.check e) (at_cursor e l) h in
      ih
      ∙ ap (λ (xs : List Event). m.sent ++ map Frame.check xs) k
      ∙ ap (λ (xs : List Frame). xs ++ map Frame.check es) s
      ∙ append_assoc l.sent (Frame.check e ∷ []) (map Frame.check es)

  -- A pass over events with growing numbers that does not raise sends those above the cursor, in
  -- their order, and nothing else.
  pub push_events-keep :
      (es : List Event) (l : Live W)
      → Grows es
      → (push_events env es l).0 ≡ ok tt
      → (push_events env es l).1.sent
        ≡ l.sent ++ map Frame.check (keep (λ e. ltb_ℤ l.session.checks_cursor e.seq) es)
  unfolding push_events
  push_events-keep [] l g h = sym (append-nil l.sent)
  push_events-keep (e ∷ es) l g h = elim (Bool-cases (ltb_ℤ l.session.checks_cursor e.seq)) [
    | inl new ↦
        let h' = rw new at h in
        let (a, hs, hr) =
          proceed-eq-ok (λ _. push_events env es) (send env (Frame.check e) (at_cursor e l)) h' in
        rw
          (
            new,
            proceed-ok (λ _. push_events env es) (send env (Frame.check e) (at_cursor e l)) a hs,
            keep-Above e.seq l.session.checks_cursor es (ground (arith, new)) g,
          )
          (rest_sent e es l (send env (Frame.check e) (at_cursor e l)).1 refl hs g (
            push_events-keep es (send env (Frame.check e) (at_cursor e l)).1
              (Above-Grows e.seq es g) hr))
    | inr old ↦ rw old (push_events-keep es l (Above-Grows e.seq es g) (rw old at h))
  ]
