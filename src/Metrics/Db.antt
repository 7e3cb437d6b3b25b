-- ===== src/Metrics/Db.antt =====
-- slurmweb/metrics/db.py: the queries of the metrics database and what is made of their results.
pub mod Windows
pub mod Tests
use slurm_web.Base.{
  ℕ, ◌+◌, ◌-◌, ◌*◌, ◌/◌, ◌%◌, String, Bool, true, false, Option, none, some, List, [], ◌∷◌, ◌==◌,
  if◌then◌else◌, Dict, get, put, update, eqb, ◌^^◌, show, ℤ, pos, negsuc,
}
use slurm_web.Py.Value.{Value, int, list, cons, nil, truthy}
use slurm_web.Py.Error.{Exn, metrics_db_error, key_error}
use slurm_web.Py.Result.{Result, ok, raised, or_raise, ◌>>=◌}
use slurm_web.Py.Ops.{getitem, iterate, as_int, as_str}

-- SlurmWebRangeResolution and SlurmWebRangeResolutionSet
pub record Resolution : Type 0 where
  pub step : String
  pub range : String
  pub rounding : ℕ

pub record ResolutionSet : Type 0 where
  pub hour : Resolution
  pub day : Resolution
  pub week : Resolution

-- SlurmwebMetricId, with its key or none
pub record MetricId : Type 0 where
  pub name : String
  pub key : String

abbrev pub metric_id : String → Option String → MetricId
metric_id name none = record { name = name; key = name }
metric_id name (some key) =
    if key == "" then record { name = name; key = name } else record { name = name; key = key }

-- SlurmwebMetricQuery
pub record Query : Type 0 where
  pub endpoint : String
  pub ids : List MetricId
  pub resolution : ResolutionSet
  pub agg : Option String
  pub label_as_key : Option String

abbrev pub resolution_30s : ResolutionSet
resolution_30s = record {
  hour = record { step = "30s"; range = "1h"; rounding = 30 };
  day = record { step = "10m"; range = "1d"; rounding = 600 };
  week = record { step = "1h"; range = "1w"; rounding = 3600 };
}

abbrev pub resolution_1m : ResolutionSet
resolution_1m = record {
  hour = record { step = "1m"; range = "1h"; rounding = 60 };
  day = record { step = "10m"; range = "1d"; rounding = 600 };
  week = record { step = "1h"; range = "1w"; rounding = 3600 };
}

abbrev by_state : String → Query
by_state name = record {
  endpoint = "query";
  ids = metric_id name none ∷ [];
  resolution = resolution_30s;
  agg = some "avg_over_time";
  label_as_key = some "state";
}

abbrev pub metrics_query_params : Dict Query
metrics_query_params =
    ("nodes", by_state "slurm_nodes")
    ∷ ("cores", by_state "slurm_cores")
    ∷ ("gpus", by_state "slurm_gpus")
    ∷ ("jobs", by_state "slurm_jobs")
    ∷ (
      "cache",
      record {
        endpoint = "query_range";
        ids =
            metric_id "slurmweb_cache_hit_total" (some "hit")
            ∷ metric_id "slurmweb_cache_miss_total" (some "miss")
            ∷ [];
        resolution = resolution_1m;
        agg = none;
        label_as_key = none;
      },
    )
    ∷ []

-- getattr(params.resolution, last). A named tuple has other attributes than its fields, its methods
-- among them, which have no range: `is_attribute` tells their names.
pub resolution_of : (String → Bool) → ResolutionSet → String → Result Resolution
resolution_of is_attribute set last =
    if last == "hour"
    then ok set.hour
    else if last == "day"
    then ok set.day
    else if last == "week"
    then ok set.week
    else if is_attribute last
    then raised Exn.attribute_error
    else raised (metrics_db_error ("Unsupported metric range " ^^ last))

-- the seconds of the timedelta
pub seconds_of : String → ℕ
seconds_of last =
    if last == "hour"
    then 3600
    else if last == "day"
    then 86400
    else if last == "week"
    then 604800
    else 0

-- _rounded_timetstamp, on whole seconds: what is rounded off holds the fraction
pub rounded_timestamp : ℕ → ℕ → ℕ
rounded_timestamp timestamp rounding = timestamp - timestamp % rounding

-- A float that is a whole number.
abbrev pub show_float : ℕ → String
show_float n = show n ^^ ".0"

module _ (job : String) where
  abbrev pub filter_of : String
  filter_of = "{job='" ^^ (job ^^ "'}")

  pub aggregated : String → MetricId → Resolution → String
  aggregated agg id resolution =
      agg
      ^^ ("("
          ^^ (id.name
              ^^ (filter_of
                  ^^ ("["
                      ^^ (resolution.step
                          ^^ ("])[" ^^ (resolution.range ^^ (":" ^^ (resolution.step ^^ "]")))))))))

  -- the window of the range queries, at a time in seconds
  pub window : ℕ → String → Resolution → String
  window now last resolution =
      "&start="
      ^^ (show_float (rounded_timestamp (now - seconds_of last) resolution.rounding)
          ^^ ("&end="
              ^^ (show_float (rounded_timestamp now resolution.rounding)
                  ^^ ("&step=" ^^ resolution.step))))

  pub increase : MetricId → Resolution → String → String
  increase id resolution range =
      id.name
      ^^ (filter_of
          ^^ ("-"
              ^^ (id.name ^^ (filter_of ^^ (" offset " ^^ (resolution.step ^^ (" " ^^ range)))))))

  pub promql : ℕ → Option String → MetricId → String → Resolution → String
  promql now none id last resolution = increase id resolution (window now last resolution)
  promql now (some agg) id last resolution = aggregated agg id resolution

  -- _query, at a time in seconds
  pub query : (String → Bool) → ℕ → Query → String → MetricId → Result String
  query is_attribute now params last id = do
    resolution ← resolution_of is_attribute params.resolution last
    ok (params.endpoint ^^ ("?query=" ^^ promql now params.agg id last resolution))

-- n * 1000
abbrev pub thousandfold : ℤ → ℤ
thousandfold (pos n) = pos (n * 1000)
thousandfold (negsuc n) = negsuc (n * 1000 + 999)

-- v[1], of a list
pub second : Value → Result Value
second (list (cons v (cons w vs))) = ok w
second (list vs) = raised Exn.index_error
second v = raised Exn.type_error

pub first_of : Value → Result Value
first_of (list (cons v vs)) = ok v
first_of (list nil) = raised Exn.index_error
first_of v = raised Exn.type_error

-- What aiohttp makes of a request: a status and a document, or ContentTypeError in its place, or a
-- ClientConnectionError.
pub data Fetched : Type 0 where
  answered : ℕ → Option Value → Fetched
  unreachable : String → Fetched

-- A point of a series: its time in milliseconds, and its value, a float of type `V`.
abbrev pub Point : Type 0 → Type 0
Point V = ℤ × V

-- `to_float` is float(), which raises on what is no number.
module _ {V : Type 0} (to_float : Value → Result V) where
  pub point_of : Value → Result (Point V)
  point_of pair = do
    time ← first_of pair
    t ← as_int time
    value ← second pair
    v ← to_float value
    ok (thousandfold t, v)

  pub points_of : List Value → Result (List (Point V))
  points_of [] = ok []
  points_of (pair ∷ pairs) = do point ← point_of pair; rest ← points_of pairs; ok (point ∷ rest)

  -- the key of a series
  pub key_of : Option String → MetricId → Value → Result String
  key_of none id result = ok id.key
  key_of (some label) id result = do
    metric ← getitem result "metric"
    value ← getitem metric label
    as_str value

  -- the loop over the result
  pub series_of :
      Option String → MetricId → Dict (List (Point V)) → List Value → Result (Dict (List (Point V)))
  series_of label id found [] = ok found
  series_of label id found (result ∷ results) = do
    key ← key_of label id result
    values ← getitem result "values"
    pairs ← iterate values
    points ← points_of pairs
    series_of label id (put found key points) results

  pub read_result : Query → MetricId → String → Value → Result (Dict (List (Point V)))
  read_result params id query json = do
    content ← getitem json "data"
    result ← getitem content "result"
    if truthy result
        then (iterate result >>= λ results. series_of params.label_as_key id [] results)
        else raised (metrics_db_error ("Empty result for query " ^^ query))

  -- _request, on what the request gave
  pub read_response : Query → MetricId → String → Fetched → Result (Dict (List (Point V)))
  read_response params id query (unreachable err) =
      raised (metrics_db_error ("Metrics database connection error: " ^^ err))
  read_response params id query (answered status document) =
      if eqb status 200
      then elim document [
        | none ↦ raised (metrics_db_error "Unsupported Content-Type for metrics database request")
        | some json ↦ read_result params id query json
      ]
      else raised (metrics_db_error "Unexpected response status for metrics database request")

  -- _requests and _merge_results, one query after the other
  pub request_all :
      (String → Fetched)
      → String
      → (String → Bool)
      → ℕ
      → Query
      → String
      → Dict (List (Point V))
      → List MetricId
      → Result (Dict (List (Point V)))
  request_all fetch job is_attribute now params last found [] = ok found
  request_all fetch job is_attribute now params last found (id ∷ ids) = do
    q ← query job is_attribute now params last id
    result ← read_response params id q (fetch q)
    request_all fetch job is_attribute now params last (update found result) ids

  -- request, for an answer of the database to each query
  pub request :
      (String → Fetched)
      → String
      → (String → Bool)
      → ℕ
      → String
      → String
      → Result (Dict (List (Point V)))
  request fetch job is_attribute now metric last = do
    params ← or_raise (get metrics_query_params metric) (key_error metric)
    request_all fetch job is_attribute now params last [] params.ids
