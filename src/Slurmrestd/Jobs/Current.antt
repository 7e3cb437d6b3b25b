-- ===== src/Slurmrestd/Jobs/Current.antt =====
-- The jobs that are still current, and those of a node (slurmweb/slurmrestd/__init__.py).
use slurm_web.Base.{
  String, ◌≡◌, Bool, true, false, List, [], ◌∷◌, not, arith, subst, Sieve, done, Sieve-step,
}
use slurm_web.Py.Value.{Value}
use slurm_web.Py.Result.{Result, ok, raised, ◌>>=◌, >>=-eq-ok, ok-injective}
use slurm_web.Slurmrestd.Jobs.{select, has_terminal_state, current, on_node, by_node}

module _ {Keep Drop : Value → Type 0} where
  pub select-Sieve :
      (test : Value → Result Bool)
      → ((x : Value) → test x ≡ ok true → Keep x)
      → ((x : Value) → test x ≡ ok false → Drop x)
      → (ys xs : List Value) → select test ys ≡ ok xs
      → Sieve Keep Drop xs ys
  unfolding select
  select-Sieve test k d [] xs h = subst (λ zs. Sieve Keep Drop zs []) (ok-injective h) done
  select-Sieve test k d (y ∷ ys) xs h =
      let (b, e, h1) = >>=-eq-ok (test y) _ h in
      let (rest, e1, h2) = >>=-eq-ok (select test ys) _ h1 in
      subst (λ zs. Sieve Keep Drop zs (y ∷ ys)) (ok-injective h2)
        (Sieve-step b (λ t. k y (rw t at e)) (λ f. d y (rw f at e))
          (select-Sieve test k d ys rest e1))

not_lem : (r : Result Bool) (b : Bool) → (r >>= λ x. ok (not x)) ≡ ok b → r ≡ ok (not b)
not_lem (ok true) b h = ground arith
not_lem (ok false) b h = ground arith
not_lem (raised e) b h = cc

-- Where it raises nothing, jobs_current returns the jobs of the list with no terminal state, all of
-- them and no other, in the order of the list.
pub current-Sieve :
    (jobs found : List Value)
    → current jobs ≡ ok found
    → Sieve
        (λ job. has_terminal_state job ≡ ok false)
        (λ job. has_terminal_state job ≡ ok true)
        found
        jobs
unfolding current
current-Sieve jobs found =
    select-Sieve (λ job. has_terminal_state job >>= λ terminal. ok (not terminal))
      (λ job. not_lem (has_terminal_state job) true) (λ job. not_lem (has_terminal_state job) false)
      jobs found

-- Where it raises nothing, jobs_by_node returns the jobs of the list that ClusterShell finds on the
-- node, all of them and no other, in the order of the list.
pub by_node-Sieve :
    (in_nodeset : String → String → Result Bool) (node : String) (jobs found : List Value)
    → by_node in_nodeset node jobs ≡ ok found
    → Sieve
        (λ job. on_node in_nodeset node job ≡ ok true)
        (λ job. on_node in_nodeset node job ≡ ok false)
        found
        jobs
unfolding by_node
by_node-Sieve in_nodeset node jobs found =
    select-Sieve (on_node in_nodeset node) (λ _ e. e) (λ _ e. e) jobs found
