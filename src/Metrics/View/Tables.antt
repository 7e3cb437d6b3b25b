-- ===== src/Metrics/View/Tables.antt =====
-- The tables of the metrics view and of the database fit (slurmweb/views/agent.py,
-- slurmweb/metrics/db.py).
use slurm_web.Base.{
  String, ◌≡◌, refl, Bool, true, false, some, Dict, get, [], ◌∷◌, Bool-cases, inl, inr, ◌==◌,
}
use slurm_web.Py.Result.{ok}
use slurm_web.Agent.Jobs.{User}
use slurm_web.Agent.Views.{metrics_guard, metrics_policy_actions}
use slurm_web.Agent.Views.Guards.{metrics_guard_iff}
use slurm_web.Metrics.Db.{Query, metrics_query_params}

-- Two dictionaries with the same keys in the same order.
abbrev SameKeys : {A B : Type 0} → Dict A → Dict B → Type 0
SameKeys [] e = Unit {0}
SameKeys (x ∷ d) [] = false ≡ true
SameKeys ((j, a) ∷ d) ((k, b) ∷ e) = (j ≡ k) × SameKeys d e

get-SameKeys :
    {A B : Type 0} (d : Dict A) (e : Dict B) (m : String) (a : A)
    → SameKeys d e
    → get d m ≡ some a
    → (b : B) × (get e m ≡ some b)
unfolding get
get-SameKeys [] e m a s h = absurd (cc)
get-SameKeys (x ∷ d) [] m a s h = absurd (cc)
get-SameKeys ((j, c) ∷ d) ((k, b) ∷ e) m a (q, s) h = elim (Bool-cases (j == m)) [
  | inl t ↦ (b, rw (← q, t) refl)
  | inr t ↦ let (b', g) = get-SameKeys d e m a s (rw t at h) in (b', rw (← q, t) g)
]

-- A metric that a user may ask for is one that the database has a query for.
pub metrics_guard-metrics_query_params :
    (enabled : Bool) (user : User) (metric : String)
    → metrics_guard enabled user metric ≡ ok tt
    → (params : Query) × (get metrics_query_params metric ≡ some params)
metrics_guard-metrics_query_params enabled user metric h =
    let (e, (action, g, allowed)) = (metrics_guard_iff enabled user metric).0 h in
    get-SameKeys metrics_policy_actions metrics_query_params metric action
      (refl, (refl, (refl, (refl, (refl, tt))))) g
