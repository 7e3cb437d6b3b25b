-- ===== src/Slurmrestd/Client/Tests.antt =====
-- Discovery and requests on the sample server.
use slurm_web.Base.{
  String, ◌≡◌, refl, true, false, Option, some, [], ◌∷◌, is_some, subst, ap, get, has,
}
use slurm_web.Py.Value.{Value, str}
use slurm_web.Py.Result.{Result, ok, is_ok}
use slurm_web.Slurmrestd.Auth.{Authentifier}
use slurm_web.Slurmrestd.Client.{Client, init, discover, request}
use slurm_web.Slurmrestd.Client.Discovery.{IsSettled, Discovers, discover-Discovers}
use slurm_web.Slurmrestd.Client.Requests.{init-IsSettled, request-IsSettled}
use slurm_web.Py.Value.{fields_of, items_of}
use slurm_web.Py.Ops.{getitem, is_empty, iterate, contains}
use slurm_web.Slurmrestd.Auth
use slurm_web.Slurmrestd.Response.{read_response}
use slurm_web.Slurmrestd.Adapters.{build_adaptation_chain, chain_from, index, adapter_of}
use slurm_web.Slurmrestd.Client.{
  base_discover, try_versions, try_version, execute_request, auth_headers, send, answer, adopt,
  is_skipped,
}
use slurm_web.Slurmrestd.Sample.{found_client, sample_net, local_auth, new_client}

started : init "unix" "" local_auth ("0.0.44" ∷ "0.0.43" ∷ []) tt ≡ ok new_client
unfolding init
started = refl

new-IsSettled : IsSettled new_client
new-IsSettled = init-IsSettled "unix" "" local_auth ("0.0.44" ∷ "0.0.43" ∷ []) tt new_client started

discover-Discovers_example :
    Discovers sample_net new_client
      (discover sample_net new_client).0
      (discover sample_net new_client).1
discover-Discovers_example = discover-Discovers sample_net new_client new-IsSettled

discovered :
    discover sample_net new_client ≡ (ok (str "hpc", str "24.11", some "0.0.43"), found_client)
unfolding discover base_discover try_versions try_version execute_request auth_headers send answer
    adopt is_skipped Auth.headers read_response getitem get fields_of is_empty iterate items_of
    contains has build_adaptation_chain chain_from index adapter_of
discovered = refl

found-IsSettled : IsSettled found_client
found-IsSettled =
    subst (λ c. IsSettled c)
      (ap (λ (x : Result (Value × Value × Option String) × Client (Unit {0})). x.1) discovered)
      (discover-Discovers sample_net new_client new-IsSettled).settled

request-IsSettled_example :
    IsSettled (request sample_net "slurm" "jobs" "jobs" false [] new_client).1
    × (is_ok (request sample_net "slurm" "jobs" "jobs" false [] new_client).0 ≡ true
        → is_some (request sample_net "slurm" "jobs" "jobs" false [] new_client).1.api_version
          ≡ true)
request-IsSettled_example =
    request-IsSettled sample_net "slurm" "jobs" "jobs" false [] new_client new-IsSettled
