-- ===== src/Slurmrestd/Client/Requests.antt =====
-- Requests with the discovered version (slurmweb/slurmrestd/__init__.py, the two _request methods).
use slurm_web.Base.{
  String, ◌≡◌, refl, Bool, true, Option, none, some, List, arith, is_some, inl, inr, ◌∙◌, sym, ap,
}
use slurm_web.Py.Result.{ok, is_ok, Result-cases}
use slurm_web.Slurmrestd.Auth.{Authentifier}
use slurm_web.Slurmrestd.Client.{
  Client, Net, Params, init, text_of, execute_request, ensure, is_discovered, base_discover,
  discover, base_request, request,
}
use slurm_web.Slurmrestd.Client.Discovery.{
  IsSettled, Keeps, execute_request-Keeps, discover-Discovers, first_version_lem,
}

-- A new client is settled: it has no version and an empty chain.
pub init-IsSettled :
    {W : Type 0} (scheme url : String) (auth : Authentifier) (versions : List String) (w : W)
    (c : Client W)
    → init scheme url auth versions w ≡ ok c
    → IsSettled c
unfolding init
init-IsSettled scheme url auth versions w c h = record {
  supported = λ v e. ground arith;
  chained = ground arith;
}

known_version : (o : Option String) → is_some o ≡ true → (v : String) × (o ≡ some v)
known_version none h = cc
known_version (some v) h = (v, refl)

module _ {W : Type 0} (net : Net W) where
  Keeps-IsSettled : {c c' : Client W} → Keeps c c' → IsSettled c → IsSettled c'
  Keeps-IsSettled k s = record {
    supported = λ v h. rw k.supported (s.supported v (sym k.api ∙ h));
    chained = rw (k.chain, k.api, k.supported) s.chained;
  }

  ensure_effect :
      (api : Option String) (c : Client W)
      → c.api_version ≡ api
      → IsSettled c
      → IsSettled (ensure net api c).1
        × (is_ok (ensure net api c).0 ≡ true → is_some (ensure net api c).1.api_version ≡ true)
  unfolding ensure
  ensure_effect (some v) c e s = (s, λ _. ground arith)
  ensure_effect none c e s =
      let d = discover-Discovers net c s in
      elim (Result-cases (discover net c).0) [
        | inl (t, e1) ↦ rw e1 (let (v, m, p, q) = d.success t e1 in (d.settled, λ _. ground arith))
        | inr (x, e1) ↦ rw e1 (d.settled, λ h. cc)
      ]

  -- Whatever happens in a request, the versions stay settled. A request that returns knows its
  -- version, which is a supported one, and so the chain that it has applied.
  pub base_request-IsSettled :
      (component endpoint key : String) (ignore : Bool) (params : Params) (c : Client W)
      → IsSettled c
      → IsSettled (base_request net component endpoint key ignore params c).1
        × (is_ok (base_request net component endpoint key ignore params c).0 ≡ true
            → is_some (base_request net component endpoint key ignore params c).1.api_version
              ≡ true)
  unfolding base_request
  base_request-IsSettled component endpoint key ignore params c s =
      let (s1, known) = ensure_effect c.api_version c refl s in
      let c1 = (ensure net c.api_version c).1 in
      let k =
        execute_request-Keeps net component (text_of c1.api_version) endpoint ignore params c1 in
      elim (Result-cases (ensure net c.api_version c).0) [
        | inl (u, e) ↦
            rw e
              (elim (Result-cases
                (execute_request net component (text_of c1.api_version) endpoint ignore params
                  c1).0) [
                    | inl (v, e1) ↦ rw e1 (Keeps-IsSettled k s1, λ _. rw k.api (known (rw e)))
                    | inr (x, e1) ↦ rw e1 (Keeps-IsSettled k s1, λ h. cc)
                  ])
        | inr (x, e) ↦ rw e (s1, λ h. cc)
      ]

  -- Whatever happens in a request of a settled client, with the adaptation of its result, the
  -- versions stay settled, and a request that returns knows its version.
  pub request-IsSettled :
      (component endpoint key : String) (ignore : Bool) (params : Params) (c : Client W)
      → IsSettled c
      → IsSettled (request net component endpoint key ignore params c).1
        × (is_ok (request net component endpoint key ignore params c).0 ≡ true
            → is_some (request net component endpoint key ignore params c).1.api_version ≡ true)
  unfolding request
  request-IsSettled component endpoint key ignore params c s =
      let (s1, known) = base_request-IsSettled component endpoint key ignore params c s in
      elim (Result-cases (base_request net component endpoint key ignore params c).0) [
        | inl (v, e) ↦ rw e (s1, λ _. known (rw e))
        | inr (x, e) ↦ rw e (s1, λ h. cc)
      ]

  -- A settled client that has discovered its version answers discover() from its attributes,
  -- without a request, and does not change.
  pub discover_idle :
      (c : Client W)
      → IsSettled c
      → is_discovered net c ≡ true
      → discover net c ≡ (ok (c.cluster_name, c.slurm_version, c.api_version), c)
  unfolding discover base_discover
  discover_idle c s d =
      let (v, e) = known_version c.api_version (ground arith) in
      rw (d, first_version_lem net v c.supported_versions (s.supported v e))
        (ap
          (λ chain. (
            ok (c.cluster_name, c.slurm_version, c.api_version),
            record c { adaptation_chain = chain },
          ))
          (sym s.chained))
