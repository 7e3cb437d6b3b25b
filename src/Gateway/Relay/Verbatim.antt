-- ===== src/Gateway/Relay/Verbatim.antt =====
-- The frames that a relay hands on (slurmweb/views/gateway.py).
use slurm_web.Base.{
  ℕ, zero, suc, length, arith, ◌≡◌, refl, Bool, true, false, List, [], ◌∷◌, ◌++◌, append_assoc, sym,
  ap, ◌∙◌, append-nil, if◌then◌else◌,
}
use slurm_web.Gateway.Relay.{
  Relay, opened, pump_frame, pump, forward_frame, forward, Step, Steps, agent_sends, browser_sends,
  pumps, forwards, downstream_ends, upstream_ends, none_yet, after,
}

module _ {F : Type 0} where
  -- What either peer has got, with what has not been read, is what the other has sent.
  abbrev pub IsVerbatim : Relay F → Type 0
  IsVerbatim r =
      (r.to_browser ++ r.from_agent ≡ r.agent_sent)
      × (r.to_agent ++ r.from_browser ≡ r.browser_sent)

  if-IsVerbatim :
      (b : Bool) (r s : Relay F) → IsVerbatim r → IsVerbatim s → IsVerbatim (if b then r else s)
  if-IsVerbatim true r s h k = h
  if-IsVerbatim false r s h k = k

  pump_frame-IsVerbatim :
      (frames : List F) (r : Relay F)
      → r.to_browser ++ frames ≡ r.agent_sent
      → r.to_agent ++ r.from_browser ≡ r.browser_sent
      → r.from_agent ≡ frames
      → IsVerbatim (pump_frame frames r)
  unfolding pump_frame
  pump_frame-IsVerbatim [] r h k e = (rw e h, k)
  pump_frame-IsVerbatim (f ∷ fs) r h k e = (append_assoc r.to_browser (f ∷ []) fs ∙ h, k)

  pump-IsVerbatim : (r : Relay F) → IsVerbatim r → IsVerbatim (pump r)
  unfolding pump
  pump-IsVerbatim r (h, k) =
      if-IsVerbatim r.downstream (pump_frame r.from_agent r) r
        (pump_frame-IsVerbatim r.from_agent r h k refl) (h, k)

  forward_frame-IsVerbatim :
      (frames : List F) (r : Relay F)
      → r.to_browser ++ r.from_agent ≡ r.agent_sent
      → r.to_agent ++ frames ≡ r.browser_sent
      → r.from_browser ≡ frames
      → IsVerbatim (forward_frame frames r)
  unfolding forward_frame
  forward_frame-IsVerbatim [] r h k e = (h, rw e k)
  forward_frame-IsVerbatim (f ∷ fs) r h k e = (h, append_assoc r.to_agent (f ∷ []) fs ∙ k)

  forward-IsVerbatim : (r : Relay F) → IsVerbatim r → IsVerbatim (forward r)
  unfolding forward
  forward-IsVerbatim r (h, k) =
      if-IsVerbatim r.upstream (forward_frame r.from_browser r) r
        (forward_frame-IsVerbatim r.from_browser r h k refl) (h, k)

  Step-IsVerbatim : {r s : Relay F} → Step r s → IsVerbatim r → IsVerbatim s
  Step-IsVerbatim (agent_sends r f) (h, k) =
      (sym (append_assoc r.to_browser r.from_agent (f ∷ [])) ∙ ap (λ xs. xs ++ (f ∷ [])) h, k)
  Step-IsVerbatim (browser_sends r f) (h, k) =
      (h, sym (append_assoc r.to_agent r.from_browser (f ∷ [])) ∙ ap (λ xs. xs ++ (f ∷ [])) k)
  Step-IsVerbatim (pumps r) v = pump-IsVerbatim r v
  Step-IsVerbatim (forwards r) v = forward-IsVerbatim r v
  Step-IsVerbatim (downstream_ends r) v = v
  Step-IsVerbatim (upstream_ends r) v = v

  -- In any order of what the peers and the threads do, the browser has got the first frames of the
  -- agent and the agent those of the browser, unchanged, in their order and each once.
  pub relay-IsVerbatim : (r : Relay F) → Steps opened r → IsVerbatim r
  relay-IsVerbatim r steps = from_opened steps refl
    where
      from_opened : {r s : Relay F} → Steps r s → r ≡ opened → IsVerbatim s
      from_opened none_yet e = rw e (refl, refl)
      from_opened (after more step) e = Step-IsVerbatim step (from_opened more e)

  -- The thread downstream(), for so many turns.
  abbrev pub pumps_for : ℕ → Relay F → Relay F
  pumps_for zero r = r
  pumps_for (suc n) r = pumps_for n (pump r)

  pump-cons :
      (f : F) (fs : List F) (r : Relay F)
      → r.from_agent ≡ f ∷ fs
      → r.downstream ≡ true
      → pump r ≡ record r { from_agent = fs; to_browser = r.to_browser ++ (f ∷ []) }
  unfolding pump
  pump-cons f fs r e d = ground arith

  pumps_for-delivers :
      (frames : List F) (r : Relay F)
      → r.from_agent ≡ frames
      → r.downstream ≡ true
      → ((pumps_for (length frames) r).to_browser ≡ r.to_browser ++ frames)
        × ((pumps_for (length frames) r).from_agent ≡ [])
  pumps_for-delivers [] r e d = (sym (append-nil r.to_browser), e)
  pumps_for-delivers (f ∷ fs) r e d =
      let next = record r { from_agent = fs; to_browser = r.to_browser ++ (f ∷ []) } in
      let (h, k) = pumps_for-delivers fs next refl d in
      let p = pump-cons f fs r e d in
      (
        ap (λ (q : Relay F). (pumps_for (length fs) q).to_browser) p
            ∙ h
            ∙ append_assoc r.to_browser (f ∷ []) fs,
        ap (λ (q : Relay F). (pumps_for (length fs) q).from_agent) p ∙ k,
      )

  -- As long as the thread downstream() runs, every frame of the agent reaches the browser: after as
  -- many turns as there are frames left to read, the browser has got all that the agent has sent.
  pub pumps_for-agent_sent :
      (r : Relay F)
      → Steps opened r
      → r.downstream ≡ true
      → (pumps_for (length r.from_agent) r).to_browser ≡ r.agent_sent
  pumps_for-agent_sent r steps d =
      (pumps_for-delivers r.from_agent r refl d).0 ∙ (relay-IsVerbatim r steps).0
