-- ===== src/Metrics/Db/Tests.antt =====
-- The window of an hour, and the query of the cache.
use slurm_web.Base.{ℕ, ◌≡◌, refl, Bool, false, String, some, none, List, [], ◌∷◌, pos}
use slurm_web.Py.Value.{Value, str, int, list, cons, nil, dict, field, end}
use slurm_web.Py.Result.{Result, ok}
use slurm_web.Metrics.Db.{Resolution, resolution_1m, request, Fetched, answered}

abbrev minute : Resolution
minute = resolution_1m.hour

abbrev pair : Value
pair = list (cons (int (pos 7)) (cons (str "3.5") nil))

abbrev series : Value
series = dict (
    field "metric" (dict (field "state" (str "idle") end))
      (field "values" (list (cons pair nil)) end))

abbrev fetch : String → Fetched
fetch query =
    answered 200
      (some (dict (field "data" (dict (field "result" (list (cons series nil)) end)) end)))

abbrev same : Value → Result Value
same v = ok v

nodes :
    request same fetch "slurm" (λ name. false) 7317 "nodes" "hour"
    ≡ ok (("idle", (pos 7000, str "3.5") ∷ []) ∷ [])
unfolding request slurm_web.Base.get slurm_web.Metrics.Db.request_all slurm_web.Metrics.Db.query
    slurm_web.Metrics.Db.resolution_of slurm_web.Metrics.Db.read_response
    slurm_web.Metrics.Db.read_result slurm_web.Py.Ops.getitem slurm_web.Py.Value.fields_of
    slurm_web.Py.Value.truthy slurm_web.Py.Ops.iterate slurm_web.Metrics.Db.series_of
    slurm_web.Py.Value.items_of slurm_web.Metrics.Db.key_of slurm_web.Py.Ops.as_str
    slurm_web.Metrics.Db.points_of slurm_web.Metrics.Db.point_of slurm_web.Base.keys
    slurm_web.Base.put slurm_web.Base.update slurm_web.Metrics.Db.first_of
    slurm_web.Metrics.Db.promql slurm_web.Metrics.Db.second slurm_web.Py.Ops.as_int
nodes = refl
