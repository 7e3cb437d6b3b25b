-- ===== src/Slurmrestd/Client/Discovery.antt =====
-- What discovery leaves behind, on success and on every exception (slurmweb/slurmrestd/__init__.py).
use slurm_web.Base.{
  String, ◌≡◌, refl, Bool, true, false, Option, none, some, List, [], ◌∷◌, eq_refl, arith,
  if◌then◌else◌, elem, is_some, Bool-cases, inl, inr, ◌∙◌, sym,
}
use slurm_web.Py.Value.{Value}
use slurm_web.Py.Error.{Exn}
use slurm_web.Py.Result.{Result, ok, raised, is_ok, Result-cases}
use slurm_web.Py.Exec.{pure}
use slurm_web.Slurmrestd.Client.{
  Client, Net, Params, is_skipped, chain_to, target_of, execute_request, adopt, try_version,
  try_versions, is_discovered, first_version, base_discover, discover,
}

-- What a call leaves alone that has to do with versions.
pub record Keeps {W : Type 0} (c c' : Client W) : Type 0 where
  pub supported : c'.supported_versions ≡ c.supported_versions
  pub api : c'.api_version ≡ c.api_version
  pub chain : c'.adaptation_chain ≡ c.adaptation_chain
  pub cluster : c'.cluster_name ≡ c.cluster_name
  pub slurm : c'.slurm_version ≡ c.slurm_version

module _ {W : Type 0} (net : Net W) where
  pub execute_request-Keeps :
      (component version endpoint : String) (ignore : Bool) (params : Params) (c : Client W)
      → Keeps c (execute_request net component version endpoint ignore params c).1
  unfolding execute_request
  execute_request-Keeps component version endpoint ignore params c = ground arith

  adopt_effect :
      (version : String) (v : Value) (c : Client W)
      → ((adopt net version v c).1.supported_versions ≡ c.supported_versions)
        × ((adopt net version v c).1.adaptation_chain ≡ c.adaptation_chain)
        × ((adopt net version v c).1.api_version
            ≡ (if is_ok (adopt net version v c).0 then some version else c.api_version))
  unfolding adopt
  adopt_effect version v c = ground arith

  try_version_effect :
      (version : String) (c : Client W)
      → ((try_version net version c).1.supported_versions ≡ c.supported_versions)
        × ((try_version net version c).1.adaptation_chain ≡ c.adaptation_chain)
        × ((try_version net version c).1.api_version
            ≡ (if is_ok (try_version net version c).0 then some version else c.api_version))
  unfolding try_version
  try_version_effect version c =
      let kept = execute_request-Keeps "slurm" version "ping" true [] c in
      elim (Result-cases (execute_request net "slurm" version "ping" true [] c).0) [
        | inl (v, e) ↦ rw e (
            ground (
              arith,
              adopt_effect version v (execute_request net "slurm" version "ping" true [] c).1,
              kept.supported,
              kept.chain,
              kept.api,
            ))
        | inr (x, e) ↦ rw e (ground (arith, kept.supported, kept.chain, kept.api))
      ]

  -- What the loop does to the client, on each way out of it.
  record Tried (versions : List String) (c : Client W) (r : Result (Unit {0})) (c' : Client W)
      : Type 0 where
    supported : c'.supported_versions ≡ c.supported_versions
    chain : c'.adaptation_chain ≡ c.adaptation_chain
    success : r ≡ ok tt → (v : String) × (elem v versions ≡ true) × (c'.api_version ≡ some v)
    failure : (e : Exn) → r ≡ raised e → (c'.api_version ≡ c.api_version) × (is_skipped e ≡ false)

  try_versions-Tried :
      (all versions : List String) (c : Client W)
      → Tried versions c (try_versions net all versions c).0 (try_versions net all versions c).1
  unfolding try_versions is_skipped
  try_versions-Tried all [] c = ground arith
  try_versions-Tried all (v ∷ vs) c =
      let (s, k, a) = try_version_effect v c in
      elim (Result-cases (try_version net v c).0) [
        | inl (u, e) ↦ rw e (record {
          supported = s;
          chain = k;
          success = λ _. (v, ground (arith, eq_refl v), ground arith);
          failure = λ x h. cc;
        })
        | inr (x, e) ↦ elim (Bool-cases (is_skipped x)) [
          | inl skip ↦
              rw (e, skip)
                (let t = try_versions-Tried all vs (try_version net v c).1 in
                  record {
                    supported = t.supported ∙ s;
                    chain = t.chain ∙ k;
                    success = λ h. let (u, m, p) = t.success h in (u, ground arith, p);
                    failure = λ y h. let (p, q) = t.failure y h in (p ∙ (rw e at a), q);
                  })
          | inr stop ↦
              rw (e, stop)
                (record {
                  supported = s;
                  chain = k;
                  success = λ h. absurd (cc);
                  failure = λ y h. (rw e at a, ground arith);
                })
        ]
      ]

-- The version in use is a supported one, and the adaptation chain leads from it to the first of the
-- supported versions.
pub record IsSettled {W : Type 0} (c : Client W) : Type 0 where
  pub supported : (v : String) → c.api_version ≡ some v → elem v c.supported_versions ≡ true
  pub chained :
      c.adaptation_chain
      ≡ chain_to c.api_version (target_of c.supported_versions) c.supported_versions

module _ {W : Type 0} (net : Net W) where
  -- What base_discover does, on each way out of it.
  record Based (c : Client W) (r : Result (Value × Value × Option String)) (c' : Client W)
      : Type 0 where
    supported : c'.supported_versions ≡ c.supported_versions
    chain : c'.adaptation_chain ≡ c.adaptation_chain
    success :
        (t : Value × Value × Option String)
        → r ≡ ok t
        → (v : String) × (elem v c.supported_versions ≡ true)
          × (c'.api_version ≡ some v)
          × (t.2 ≡ some v)
    failure : (e : Exn) → r ≡ raised e → (c'.api_version ≡ c.api_version) × (is_skipped e ≡ false)

  known-Based :
      (c : Client W) (api : Option String)
      → c.api_version ≡ api
      → is_some api ≡ true
      → IsSettled c
      → Based c (ok (c.cluster_name, c.slurm_version, c.api_version)) c
  known-Based c none e h settled = cc
  known-Based c (some v) e h settled = record {
    supported = refl;
    chain = refl;
    success = λ t h. (v, settled.supported v e, e, ground arith);
    failure = λ x h. absurd (cc);
  }

  base_discover-Based :
      (c : Client W) → IsSettled c → Based c (base_discover net c).0 (base_discover net c).1
  unfolding base_discover
  base_discover-Based c settled = elim (Bool-cases (is_discovered net c)) [
    | inl d ↦ rw d (known-Based c c.api_version refl (ground arith) settled)
    | inr d ↦ rw d (
        let t = try_versions-Tried net c.supported_versions c.supported_versions c in
        elim (Result-cases (try_versions net c.supported_versions c.supported_versions c).0) [
          | inl (u, e) ↦ rw e (
              let (v, m, p) = t.success e in
              record {
                supported = t.supported;
                chain = t.chain;
                success = λ r h. (v, m, p, ground arith);
                failure = λ x h. absurd (cc);
              })
          | inr (x, e) ↦ rw e (
              let (p, q) = t.failure x e in
              record {
                supported = t.supported;
                chain = t.chain;
                success = λ r h. absurd (cc);
                failure = λ y h. (p, ground arith);
              })
        ])
  ]

  pub first_version_lem :
      (v : String) (versions : List String)
      → elem v versions ≡ true
      → first_version net versions ≡ pure (target_of versions)
  first_version_lem v [] h = cc
  first_version_lem v (x ∷ xs) h = refl

  -- What discover() promises: the versions and the chain are settled again whatever happens. On
  -- success the version is a supported one and is the third part of the result. An exception is none
  -- of those that mean that a version does not fit, and leaves the version as it was.
  pub record Discovers (c : Client W) (r : Result (Value × Value × Option String)) (c' : Client W)
      : Type 0 where
    pub supported : c'.supported_versions ≡ c.supported_versions
    pub settled : IsSettled c'
    pub success :
        (t : Value × Value × Option String)
        → r ≡ ok t
        → (v : String) × (elem v c.supported_versions ≡ true)
          × (c'.api_version ≡ some v)
          × (t.2 ≡ some v)
    pub failure :
        (e : Exn) → r ≡ raised e → (c'.api_version ≡ c.api_version) × (is_skipped e ≡ false)

  -- On a settled client discover() does what `Discovers` says, whatever slurmrestd answers: the
  -- versions and the chain are settled again, a result names a supported version that the client
  -- then holds, and an exception is none that means a version to skip and leaves the version as it
  -- was.
  pub discover-Discovers :
      (c : Client W) → IsSettled c → Discovers c (discover net c).0 (discover net c).1
  unfolding discover
  discover-Discovers c settled =
      let b = base_discover-Based c settled in
      elim (Result-cases (base_discover net c).0) [
        | inl (t, e) ↦
            let (v, m, p, q) = b.success t e in
            rw
              (e, first_version_lem v (base_discover net c).1.supported_versions (rw b.supported m))
              (record {
                supported = b.supported;
                settled = record {
                  supported = λ u h. let same : v ≡ u = cc in rw (b.supported, ← same) m;
                  chained = refl;
                };
                success = λ r h. (v, m, p, ground arith);
                failure = λ x h. absurd (cc);
              })
        | inr (x, e) ↦ rw e (
            let (p, q) = b.failure x e in
            record {
              supported = b.supported;
              settled = record {
                supported = λ u h. rw b.supported (settled.supported u (sym p ∙ h));
                chained = rw (b.chain, p, b.supported) settled.chained;
              };
              success = λ r h. absurd (cc);
              failure = λ y h. (p, ground arith);
            })
      ]
