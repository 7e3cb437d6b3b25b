-- ===== src/Agent/Views/Guards.antt =====
-- Who gets an answer from the views, and what the statistics count (slurmweb/views/agent.py).
use slurm_web.Base.{
  ℕ, ◌+◌, ◌≤◌, String, ◌≡◌, refl, Bool, true, false, Option, none, some, List, [], ◌∷◌,
  if◌then◌else◌, length, arith, get, ◌↔◌, subst, pos, ℤ, ◌+ℤ◌,
}
use slurm_web.Py.Value.{Value}
use slurm_web.Py.Error.{Exn}
use slurm_web.Py.Result.{Result, ok, raised, >>=-eq-ok, ok-injective}
use slurm_web.Py.Ops.{getitem, contains, iterate, as_int}
use slurm_web.Py.Exec.{proceed-eq-ok}
use slurm_web.Slurmrestd.Resources.{node_gres_extract_gpus}
use slurm_web.Agent.Api.{Api}
use slurm_web.Agent.Errors.{slurmrest}
use slurm_web.Agent.Jobs.{User}
use slurm_web.Agent.Views.{
  View, action_of, view, Stats, stats, count_running, count_resources, metrics_guard, permit,
  metrics_policy_actions,
}

count_running_bounds :
    (jobs : List Value) (r t r' t' : ℕ)
    → count_running jobs r t ≡ ok (r', t')
    → (t' ≡ t + length jobs) × (r' + t ≤ r + t')
unfolding count_running
count_running_bounds [] r t r' t' h = (ground arith, ground arith)
count_running_bounds (job ∷ jobs) r t r' t' h =
    let (states, e, h1) = >>=-eq-ok (getitem job "job_state") _ h in
    let (runs, e1, h2) = >>=-eq-ok (contains "RUNNING" states) _ h1 in
    let (a, b) = count_running_bounds jobs (if runs then r + 1 else r) (t + 1) r' t' h2 in
    (omega arith, ground arith)

count_resources-length :
    (items : List Value) (n n' : ℕ) (c m g c' m' g' : ℤ)
    → count_resources items n c m g ≡ ok (n', c', m', g')
    → n' ≡ n + length items
unfolding count_resources
count_resources-length [] n n' c m g c' m' g' h = ground arith
count_resources-length (item ∷ rest) n n' c m g c' m' g' h =
    let (cpus, e, h1) = >>=-eq-ok (getitem item "cpus") _ h in
    let (a, e1, h2) = >>=-eq-ok (as_int cpus) _ h1 in
    let (real, e2, h3) = >>=-eq-ok (getitem item "real_memory") _ h2 in
    let (b, e3, h4) = >>=-eq-ok (as_int real) _ h3 in
    let (gres, e4, h5) = >>=-eq-ok (getitem item "gres") _ h4 in
    let (d, e5, h6) = >>=-eq-ok (node_gres_extract_gpus gres) _ h5 in
    omega (arith, count_resources-length rest (n + 1) n' (c +ℤ a) (m +ℤ b) (g +ℤ d) c' m' g' h6)

counts_of :
    (st : Stats) (n running total l k : ℕ) (c m g : ℤ)
    → ok (record { nodes = n; cores = c; memory = m; gpus = g; running = running; total = total })
      ≡ ok st
    → total ≡ 0 + l
    → running + 0 ≤ 0 + total
    → n ≡ 0 + k
    → (st.total ≡ l) × (st.running ≤ st.total) × (st.nodes ≡ k)
counts_of st n running total l k c m g h a b d =
    subst (λ (x : Stats). (x.total ≡ l) × (x.running ≤ x.total) × (x.nodes ≡ k)) (ok-injective h)
      (omega arith, omega arith, omega arith)

module _ {S : Type 0} (format : Value → String) (rbac_action : String → Result (Unit {0}))
    (api : Api S) where
  -- Where the statistics are answered, they count the jobs and the nodes that the client gave for
  -- them: as many as there are, and at most as many running jobs as jobs.
  pub stats_counts :
      (s : S) (st : Stats)
      → (stats format rbac_action api s).0 ≡ ok st
      → (jobs : List Value) × (items : List Value) × (all_jobs : Value) × (all_nodes : Value)
        × ((api.jobs s).0 ≡ ok all_jobs)
        × (iterate all_jobs ≡ ok jobs)
        × ((slurmrest format api.nodes (api.jobs s).1).0 ≡ ok all_nodes)
        × (iterate all_nodes ≡ ok items)
        × (st.total ≡ length jobs)
        × (st.running ≤ st.total)
        × (st.nodes ≡ length items)
  unfolding stats
  stats_counts s st h =
      let (u, e, h1) = proceed-eq-ok _ (rbac_action "stats-view", s) h in
      let (all_jobs, e1, h2) = proceed-eq-ok _ (api.jobs s) h1 in
      let s1 = (api.jobs s).1 in
      let (jobs, e2, h3) = proceed-eq-ok _ (iterate all_jobs, s1) h2 in
      let ((running, total), e3, h4) = proceed-eq-ok _ (count_running jobs 0 0, s1) h3 in
      let (all_nodes, e4, h5) = proceed-eq-ok _ (slurmrest format api.nodes s1) h4 in
      let s2 = (slurmrest format api.nodes s1).1 in
      let (items, e5, h6) = proceed-eq-ok _ (iterate all_nodes, s2) h5 in
      let ((n, c, m, g), e6, h7) =
        proceed-eq-ok _ (count_resources items 0 (pos 0) (pos 0) (pos 0), s2) h6 in
      let (a, b) = count_running_bounds jobs 0 0 running total e3 in
      let k = count_resources-length items 0 n (pos 0) (pos 0) (pos 0) c m g e6 in
      let (t, r, q) = counts_of st n running total (length jobs) (length items) c m g h7 a b k in
      (jobs, items, all_jobs, all_nodes, e1, e2, e4, e5, t, r, q)

  -- A view answers only a request that the policy lets pass; for any other, nothing is asked of
  -- slurmrestd.
  pub view_permitted :
      (v : View) (s : S)
      → ((x : Value)
          → (view format rbac_action api v s).0 ≡ ok x
          → rbac_action (action_of v) ≡ ok tt)
        × ((e : Exn)
            → rbac_action (action_of v) ≡ raised e
            → view format rbac_action api v s ≡ (raised e, s))
  unfolding view
  view_permitted v s = (
    λ x h. let (u, e, h1) = proceed-eq-ok _ (rbac_action (action_of v), s) h in e,
    λ e h. rw h refl,
  )

permit_iff :
    (user : User) (metric : String) (o : Option String)
    → (permit user metric o ≡ ok tt)
      ↔ ((action : String) × (o ≡ some action) × (user.allowed action ≡ true))
unfolding permit
permit_iff user metric none = (λ h. absurd (cc), λ (a, e, f). absurd (cc))
permit_iff user metric (some action) = (
  λ h. (action, refl, ground arith),
  λ (a, e, f). let same : action ≡ a = cc in rw (same, f) refl,
)

-- Of the metrics exactly those of the table are given, to the users that may perform the action of
-- the metric, and only where metrics are enabled.
pub metrics_guard_iff :
    (enabled : Bool) (user : User) (metric : String)
    → (metrics_guard enabled user metric ≡ ok tt) ↔ (
        (enabled ≡ true)
        × ((action : String) × (get metrics_policy_actions metric ≡ some action)
            × (user.allowed action ≡ true)))
unfolding metrics_guard
metrics_guard_iff false user metric = (λ h. absurd (cc), λ (e, r). absurd (cc))
metrics_guard_iff true user metric =
    let (there, back) = permit_iff user metric (get metrics_policy_actions metric) in
    (λ h. (refl, there h), λ (e, r). back r)
