-- ===== src/Metrics/View/Tests.antt =====
-- A user who may see the nodes asks for the metrics of the GPU.
use slurm_web.Base.{◌≡◌, refl, true, false, some, ◌==◌, get}
use slurm_web.Py.Value.{Value}
use slurm_web.Py.Error.{http_error}
use slurm_web.Py.Result.{Result, ok, raised}
use slurm_web.Agent.Jobs.{User}
use slurm_web.Agent.Views.{metrics_guard}
use slurm_web.Metrics.Db.{Query, unreachable, metrics_query_params}
use slurm_web.Metrics.View.{metrics}
use slurm_web.Metrics.View.Tables.{metrics_guard-metrics_query_params}

abbrev viewer : User
viewer = record { login = "marie"; allowed = λ action. action == "nodes-view" }

abbrev same : Value → Result Value
same v = ok v

forbidden :
    metrics same
      (λ query. unreachable "refused")
      "slurm"
      (λ name. false)
      7317
      true
      viewer
      "jobs"
      "hour"
    ≡ raised (http_error 403 "Access to jobs metric not permitted")
unfolding metrics metrics_guard slurm_web.Agent.Views.permit get
forbidden = refl

permitted : metrics_guard true viewer "gpus" ≡ ok tt
unfolding metrics_guard slurm_web.Agent.Views.permit get
permitted = refl

metrics_guard-metrics_query_params_example :
    (params : Query) × (get metrics_query_params "gpus" ≡ some params)
metrics_guard-metrics_query_params_example =
    metrics_guard-metrics_query_params true viewer "gpus" permitted
