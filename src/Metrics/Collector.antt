-- ===== src/Metrics/Collector.antt =====
-- slurmweb/metrics/collector.py: the metrics that the agent exports, and who may ask for them.
pub mod Exported
pub mod Tests
use slurm_web.Base.{
  ℕ, String, Bool, true, false, Option, none, some, List, [], ◌∷◌, ◌++◌, if◌then◌else◌, Dict, get,
  map, any, ℤ, pos, codes, split, strip, Text,
}
use slurm_web.Py.Error.{
  Exn, not_found, invalid_response, connection_error, internal_error, cache_error,
  authentication_error, key_error,
}
use slurm_web.Py.Result.{Result, ok, raised, or_raise}
use slurm_web.Py.Exec.{Exec}
use slurm_web.Slurmrestd.Resources.{States, Totals}

-- A GaugeMetricFamily: its name, the key of its label if it has one, and its samples by the label.
pub record Family : Type 0 where
  pub name : String
  pub label : Option String
  pub samples : Dict ℤ

pub single : String → ℤ → Family
single name value = record { name = name; label = none; samples = ("", value) ∷ [] }

pub labelled : String → String → Dict ℤ → Family
labelled name label samples = record { name = name; label = some label; samples = samples }

-- states.items(), in the order of the dictionary
abbrev pub items_of_states : States → Dict ℤ
items_of_states s =
    ("idle", s.idle)
    ∷ ("mixed", s.mixed)
    ∷ ("allocated", s.allocated)
    ∷ ("drain", s.drain)
    ∷ ("down", s.down)
    ∷ ("error", s.error)
    ∷ ("fail", s.fail)
    ∷ ("unknown", s.unknown)
    ∷ []

abbrev pub numbers : Dict ℕ → Dict ℤ
numbers d = map (λ ((k, n) : String × ℕ). (k, pos n)) d

-- What the collector asks for: resources_states() and jobs_states() of the client, and metrics() of
-- the cache, if there is one.
pub record Sources (S : Type 0) : Type 0 where
  pub resources_states : Exec S Totals
  pub jobs_states : Exec S (Dict ℕ × ℕ)
  pub cache_metrics : Option (Exec S (Dict ℕ × Dict ℕ × ℕ × ℕ))

-- The families that were yielded, the exception that ended it if any, and the state.
abbrev pub Yields : Type 0 → Type 0
Yields S = S → List Family × Option Exn × S

-- the families of each source
pub resources_families : Totals → List Family
resources_families t =
    labelled "slurm_nodes" "state" (items_of_states t.nodes_states)
    ∷ single "slurm_nodes_total" t.nodes_total
    ∷ labelled "slurm_cores" "state" (items_of_states t.cores_states)
    ∷ single "slurm_cores_total" t.cores_total
    ∷ labelled "slurm_gpus" "state" (items_of_states t.gpus_states)
    ∷ single "slurm_gpus_total" t.gpus_total
    ∷ []

pub jobs_families : Dict ℕ × ℕ → List Family
jobs_families (states, total) =
    labelled "slurm_jobs" "state" (numbers states) ∷ single "slurm_jobs_total" (pos total) ∷ []

pub cache_families : Dict ℕ × Dict ℕ × ℕ × ℕ → List Family
cache_families (hits, misses, total_hits, total_misses) =
    labelled "slurmweb_cache_hit" "key" (numbers hits)
    ∷ labelled "slurmweb_cache_miss" "key" (numbers misses)
    ∷ single "slurmweb_cache_hit_total" (pos total_hits)
    ∷ single "slurmweb_cache_miss_total" (pos total_misses)
    ∷ []

-- The families of what a source gave, and what is yielded after them.
abbrev pub yield_from :
    {S A : Type 0} → (A → List Family) → Yields S → Result A × S → List Family × Option Exn × S
yield_from families next (ok a, s) = (families a ++ (next s).0, (next s).1, (next s).2)
yield_from families next (raised e, s) = ([], some e, s)

abbrev pub done : {S : Type 0} → Yields S
done s = ([], none, s)

-- The exceptions that collect() logs.
pub is_logged : Exn → Bool
is_logged (not_found err) = true
is_logged (invalid_response err) = true
is_logged (connection_error err) = true
is_logged (internal_error message error description source) = true
is_logged (cache_error err) = true
is_logged (authentication_error err) = true
is_logged e = false

abbrev pub unlogged : Option Exn → Option Exn
unlogged none = none
unlogged (some e) = if is_logged e then none else some e

module _ {S : Type 0} (sources : Sources S) where
  -- the part of _collect for the cache
  abbrev pub collect_cache : Option (Exec S (Dict ℕ × Dict ℕ × ℕ × ℕ)) → Yields S
  collect_cache none s = ([], none, s)
  collect_cache (some metrics) s = yield_from cache_families done (metrics s)

  pub collect_jobs : Yields S
  collect_jobs s =
      yield_from jobs_families (collect_cache sources.cache_metrics) (sources.jobs_states s)

  -- _collect
  pub collect_all : Yields S
  unfolding collect_jobs
  collect_all s = yield_from resources_families collect_jobs (sources.resources_states s)

  -- collect
  pub collect : Yields S
  collect s = ((collect_all s).0, unlogged (collect_all s).1, (collect_all s).2)

-- The environment of a request, with a variable that it may lack.
pub record Environ : Type 0 where
  pub http_x_forwarded_for : Option Text
  pub remote_addr : Option Text

abbrev pub first_part : List Text → Text
first_part [] = []
first_part (part ∷ parts) = part

-- The text of get_client_ipaddress, of which ipaddress makes an address.
pub client_text : Environ → Result Text
client_text environ = elim environ.http_x_forwarded_for [
  | none ↦ or_raise environ.remote_addr (key_error "REMOTE_ADDR")
  | some forwarded ↦ ok (strip (first_part (split b',' forwarded)))
]

-- The library of addresses: what ipaddress.ip_address() makes of a text, and membership in a network.
module _ {Address Network : Type 0} (ip_address : Text → Result Address)
    (is_in : Address → Network → Bool) where
  pub client_ipaddress : Environ → Result Address
  client_ipaddress environ = elim (client_text environ) [
    | raised e ↦ raised e
    | ok text ↦ ip_address text
  ]

  -- the loop over settings.restrict
  pub permitted : Address → List Network → Bool
  permitted ip [] = false
  permitted ip (network ∷ networks) =
      let rest = permitted ip networks in if is_in ip network then true else rest

  -- slurmweb_metrics_app: is the request handed on to Prometheus, or answered with a 403?
  pub metrics_app : List Network → Environ → Result Bool
  metrics_app restrict environ = elim (client_ipaddress environ) [
    | raised e ↦ raised e
    | ok ip ↦ ok (permitted ip restrict)
  ]
