-- ===== src/Metrics/Collector/Tests.antt =====
-- A collection where the jobs cannot be had.
use slurm_web.Base.{◌≡◌, refl, true, none, some, [], ◌∷◌, pos, codes, Text}
use slurm_web.Py.Error.{connection_error}
use slurm_web.Py.Result.{ok}
use slurm_web.Py.Exec.{pure, raise}
use slurm_web.Slurmrestd.Resources.{Totals, no_totals}
use slurm_web.Metrics.Collector.{Sources, Environ, metrics_app}

abbrev totals : Totals
totals = record no_totals { nodes_total = pos 3 }

abbrev sources : Sources (Unit {0})
sources = record {
  resources_states = pure totals;
  jobs_states = raise (connection_error "refused");
  cache_metrics = none;
}

abbrev proxied : Environ
proxied = record {
  http_x_forwarded_for = some (codes " 10.0.0.1 , 10.0.0.2");
  remote_addr = some (codes "127.0.0.1");
}

first_address :
    metrics_app {Address = Text} {Network = Text}
      (λ text. ok text)
      (λ ip network. true)
      (codes "10.0.0.0/8" ∷ [])
      proxied
    ≡ ok true
unfolding metrics_app slurm_web.Metrics.Collector.client_ipaddress
    slurm_web.Metrics.Collector.client_text slurm_web.Metrics.Collector.permitted
first_address = refl
