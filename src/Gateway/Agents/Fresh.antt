-- ===== src/Gateway/Agents/Fresh.antt =====
-- Which agents the gateway knows, and for how long (slurmweb/apps/gateway.py).
use slurm_web.Base.{
  ℕ, ◌+◌, ◌<◌, ◌≤◌, String, ◌≡◌, refl, Bool, true, false, Option, none, some, List, [], ◌∷◌, ◌==◌,
  Dict, get, get-put, arith, ltb, ap, ◌∙◌, Bool-cases, inl, inr, subst, eqb,
}
use slurm_web.Py.Error.{Exn, agent_error}
use slurm_web.Py.Result.{Result, ok, raised, >>=-eq-ok, ok-injective, Result-cases}
use slurm_web.Py.Ops.{as_str}
use slurm_web.Py.Exec.{proceed-eq-ok}
use slurm_web.Gateway.Agents.{
  SlurmwebAgent, AgentsSettings, Fetched, answered, unreachable, failed, Gateway, is_supported,
  agent_info, add_agent, from_json, checked, when_supported, or_left_out, settle, collect, poll,
  agents,
}

-- Every agent of the dictionary fits the minimal versions.
abbrev pub AllSupported : AgentsSettings → Dict SlurmwebAgent → Type 0
AllSupported settings d =
    (name : String) (agent : SlurmwebAgent)
    → get d name ≡ some agent
    → is_supported settings agent ≡ ok true

nothing-AllSupported : (settings : AgentsSettings) → AllSupported settings []
unfolding get
nothing-AllSupported settings name agent h = cc

when-supported :
    (fits : Bool) (agent found : SlurmwebAgent)
    → ok (when_supported agent fits) ≡ ok (some found)
    → (fits ≡ true) × (agent ≡ found)
when-supported true agent found h = (refl, cc)
when-supported false agent found h = cc

checked-supported :
    (settings : AgentsSettings) (agent found : SlurmwebAgent)
    → checked settings agent ≡ ok (some found)
    → is_supported settings found ≡ ok true
checked-supported settings agent found h =
    let (fits, e, h1) = >>=-eq-ok (is_supported settings agent) _ h in
    let (fit, same) = when-supported fits agent found h1 in rw (← same) (e ∙ ap ok fit)

left_out-supported :
    (settings : AgentsSettings) (r : Result SlurmwebAgent) (found : SlurmwebAgent)
    → or_left_out settings r ≡ ok (some found)
    → is_supported settings found ≡ ok true
left_out-supported settings (ok agent) found h = checked-supported settings agent found h
left_out-supported settings (raised (agent_error e)) found h = cc
left_out-supported settings (raised e) found h = cc

agent_info-supported :
    (settings : AgentsSettings) (url : String) (f : Fetched) (found : SlurmwebAgent)
    → agent_info settings url f ≡ ok (some found)
    → is_supported settings found ≡ ok true
unfolding agent_info
agent_info-supported settings url (answered status none) found h = cc
agent_info-supported settings url (answered status (some data')) found h =
    elim (Bool-cases (eqb status 200)) [
      | inl e ↦ left_out-supported settings (from_json url data') found (rw e at h)
      | inr e ↦ let h1 = rw e at h in absurd (cc)
    ]
agent_info-supported settings url unreachable found h = cc
agent_info-supported settings url (failed e) found h = cc

add_agent-AllSupported :
    (settings : AgentsSettings) (o : Option SlurmwebAgent) (d d' : Dict SlurmwebAgent)
    → ((found : SlurmwebAgent) → o ≡ some found → is_supported settings found ≡ ok true)
    → AllSupported settings d
    → add_agent o d ≡ ok d'
    → AllSupported settings d'
unfolding add_agent
add_agent-AllSupported settings none d d' fits all h =
    subst (AllSupported settings) (ok-injective h) all
add_agent-AllSupported settings (some agent) d d' fits all h =
    let (name, e, h1) = >>=-eq-ok (as_str agent.cluster) _ h in
    subst (AllSupported settings) (ok-injective h1) (λ k found g. elim (Bool-cases (name == k)) [
      | inl same ↦ let g1 = rw (get-put d name k agent, same) at g in fits found g1
      | inr other ↦ all k found (rw (get-put d name k agent, other) at g)
    ])

module _ {W : Type 0} (fetch : String → W → Fetched × W) (clock : W → ℕ)
    (settings : AgentsSettings) where
  collect-AllSupported :
      (urls : List String) (d d' : Dict SlurmwebAgent) (w : W)
      → AllSupported settings d
      → (collect fetch clock settings urls d w).0 ≡ ok d'
      → AllSupported settings d'
  unfolding collect
  collect-AllSupported [] d d' w all h = subst (AllSupported settings) (ok-injective h) all
  collect-AllSupported (url ∷ urls) d d' w all h =
      let (fetched, w') = fetch url w in
      let (found, e, h1) = proceed-eq-ok _ (agent_info settings url fetched, w') h in
      let (more, e1, h2) = proceed-eq-ok _ (add_agent found d, w') h1 in
      collect-AllSupported urls more d' w'
        (add_agent-AllSupported settings found d more
          (λ agent same. agent_info-supported settings url fetched agent (rw (← same) e)) all e1)
        h2

  settle-ok :
      (g : Gateway W) (r : Result (Dict SlurmwebAgent) × W) (found : Dict SlurmwebAgent)
      → r.0 ≡ ok found
      → settle fetch clock settings g r
        ≡ (ok found, record { agents = found; agents_timeout = clock r.1 + 300; world = r.1 })
  unfolding settle
  settle-ok g (ok d, w) found e = let same : d ≡ found = cc in rw same refl
  settle-ok g (raised x, w) found e = cc

  settle-raised :
      (g : Gateway W) (r : Result (Dict SlurmwebAgent) × W) (x : Exn)
      → r.0 ≡ raised x
      → settle fetch clock settings g r ≡ (raised x, record g { world = r.1 })
  unfolding settle
  settle-raised g (ok d, w) x e = cc
  settle-raised g (raised y, w) x e = let same : y ≡ x = cc in rw same refl

  -- If the agents that the gateway knows fit the minimal versions of the settings, and asking for
  -- the agents raises nothing, the agents that it gives and those that it knows from then on fit
  -- them as well.
  pub agents-AllSupported :
      (g : Gateway W) (d : Dict SlurmwebAgent)
      → AllSupported settings g.agents
      → (agents fetch clock settings g).0 ≡ ok d
      → AllSupported settings d × AllSupported settings (agents fetch clock settings g).1.agents
  unfolding agents poll
  agents-AllSupported g d all h = elim (Bool-cases (ltb (clock g.world) g.agents_timeout)) [
    | inl e ↦ let h1 = ok-injective (rw e at h) in rw e (subst (AllSupported settings) h1 all, all)
    | inr e ↦
        let h1 = rw e at h in
        elim (Result-cases (collect fetch clock settings settings.url [] g.world).0) [
          | inl (found, e1) ↦
              let good =
                collect-AllSupported settings.url [] found g.world (nothing-AllSupported settings)
                  e1 in
              rw (e, settle-ok g (collect fetch clock settings settings.url [] g.world) found e1)
                (
                  subst (AllSupported settings)
                      (ok-injective (
                        rw
                          (settle-ok g (collect fetch clock settings settings.url [] g.world) found
                            e1)
                          at h1))
                      good,
                  good,
                )
          | inr (x, e1) ↦
              let h2 =
                rw (settle-raised g (collect fetch clock settings settings.url [] g.world) x e1) at
                  h1 in
              absurd (cc)
        ]
  ]

  -- After a poll that raised nothing, and for as long as the clock shows less than 300 seconds more
  -- than at its end, the gateway gives the same dictionary without a request.
  pub agents_fresh :
      (g : Gateway W) (d : Dict SlurmwebAgent) (w : W)
      → (agents fetch clock settings g).0 ≡ ok d
      → g.agents_timeout ≤ clock g.world
      → clock w < clock (agents fetch clock settings g).1.world + 300
      → agents fetch clock settings (record (agents fetch clock settings g).1 { world = w })
        ≡ (ok d, record (agents fetch clock settings g).1 { world = w })
  unfolding agents poll
  agents_fresh g d w h late soon =
      let polled : ltb (clock g.world) g.agents_timeout ≡ false = ground arith in
      let h1 = rw polled at h in
      elim (Result-cases (collect fetch clock settings settings.url [] g.world).0) [
        | inl (found, e1) ↦
            let r = settle-ok g (collect fetch clock settings settings.url [] g.world) found e1 in
            let same : found ≡ d = ok-injective (rw r at h1) in
            let soon1 = rw (polled, r) at soon in
            let fresh : ltb (clock w)
                  (clock (collect fetch clock settings settings.url [] g.world).1 + 300)
                ≡ true =
              ground arith in
            rw (polled, r, fresh, same) refl
        | inr (x, e1) ↦
            let h2 =
              rw (settle-raised g (collect fetch clock settings settings.url [] g.world) x e1) at
                h1 in
            absurd (cc)
      ]
