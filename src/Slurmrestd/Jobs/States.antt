-- ===== src/Slurmrestd/Jobs/States.antt =====
-- What jobs_states counts (slurmweb/slurmrestd/__init__.py).
use slurm_web.Base.{
  ℕ, ◌+◌, String, ◌≡◌, refl, Option, some, List, [], ◌∷◌, ◌==◌, eq_iff, arith, if◌then◌else◌,
  length, Dict, get, put, keys, get-put, or_else, ◌∙◌, ap,
}
use slurm_web.Py.Value.{Value}
use slurm_web.Py.Error.{key_error}
use slurm_web.Py.Result.{ok, raised, or_raise, >>=-eq-ok, ok-injective}
use slurm_web.Slurmrestd.Jobs.{
  base_states, zeros, bump, first_state, or_unknown, count_jobs, jobs_states,
}

-- The sum of the counters.
pub sum : Dict ℕ → ℕ
sum [] = 0
sum ((k, n) ∷ d) = n + sum d

sum-put : (d : Dict ℕ) (k : String) (n : ℕ) → get d k ≡ some n → sum (put d k (n + 1)) ≡ sum d + 1
unfolding sum put get
sum-put [] k n h = cc
sum-put ((j, m) ∷ d) k n h = ground (arith, sum-put d k n)

keys-put : (d : Dict ℕ) (k : String) (n v : ℕ) → get d k ≡ some n → keys (put d k v) ≡ keys d
unfolding keys put get
keys-put [] k n v h = cc
keys-put ((j, m) ∷ d) k n v h = ground (arith, keys-put d k n v)

-- The state under which a job is counted: the first of the row that it has, or "unknown".
pub counted_as : List String → String → Value → ℕ
counted_as row k job = elim (first_state row job) [
  | ok found ↦ if or_unknown found == k then 1 else 0
  | raised e ↦ 0
]

counted_as_lem :
    (row : List String) (k : String) (job : Value) {found : Option String}
    → first_state row job ≡ ok found
    → counted_as row k job ≡ (if or_unknown found == k then 1 else 0)
unfolding counted_as
counted_as_lem row k job e = rw (e, counted_as)

pub tally : List String → String → List Value → ℕ
tally row k [] = 0
tally row k (job ∷ jobs) = counted_as row k job + tally row k jobs

-- One job counted under `k`.
bump_effect :
    (d d' : Dict ℕ) (k : String)
    → bump d k ≡ ok d'
    → (sum d' ≡ sum d + 1)
      × (keys d' ≡ keys d)
      × ((j : String) → or_else (get d' j) 0 ≡ (if k == j then 1 else 0) + or_else (get d j) 0)
unfolding bump
bump_effect d d' k h =
    let (n, e, h1) = >>=-eq-ok (or_raise (get d k) (key_error k)) _ h in
    let found : get d k ≡ some n = ground arith in
    let same : put d k (n + 1) ≡ d' = ok-injective h1 in
    (
      rw (← same) (sum-put d k n found),
      rw (← same) (keys-put d k n (n + 1) found),
      λ j. rw (← same) (ground (arith, get-put d k j (n + 1), eq_iff k j)),
    )

count_jobs_effect :
    (jobs : List Value) (d d' : Dict ℕ) (total total' : ℕ)
    → count_jobs d total jobs ≡ ok (d', total')
    → (total' ≡ total + length jobs)
      × (sum d' ≡ sum d + length jobs)
      × (keys d' ≡ keys d)
      × ((k : String) → or_else (get d' k) 0 ≡ tally (keys d) k jobs + or_else (get d k) 0)
unfolding count_jobs tally
count_jobs_effect [] d d' total total' h =
    let same : d ≡ d' = ground arith in
    let none_left : total ≡ total' = ground arith in
    (omega arith, rw same (omega arith), rw same, λ k. rw same (omega arith))
count_jobs_effect (job ∷ jobs) d d' total total' h =
    let (found, e, h1) = >>=-eq-ok (first_state (keys d) job) _ h in
    let (d1, e1, h2) = >>=-eq-ok (bump d (or_unknown found)) _ h1 in
    let (s1, k1, g1) = bump_effect d d1 (or_unknown found) e1 in
    let (t2, s2, k2, g2) = count_jobs_effect jobs d1 d' (total + 1) total' h2 in
    (
      omega arith,
      omega arith,
      k2 ∙ k1,
      λ k.
          omega
            (arith, g1 k, g2 k, counted_as_lem (keys d) k job e, ap (λ row. tally row k jobs) k1),
    )

sum-zeros : (row : List String) → (sum (zeros row) ≡ 0) × (keys (zeros row) ≡ row)
unfolding sum keys
sum-zeros [] = (refl, refl)
sum-zeros (k ∷ row) = let (s, e) = sum-zeros row in (omega arith, ap (◌∷◌ k) e)

get-zeros : (row : List String) (k : String) → or_else (get (zeros row) k) 0 ≡ 0
unfolding get
get-zeros [] k = refl
get-zeros (j ∷ row) k = ground (arith, get-zeros row k)

-- Where the statistics are computed at all, the total is the number of jobs, the counters add up to
-- it, their names are the base states, and each counter is the number of jobs whose first state in
-- the order of the row it is; jobs with none of these states count as "unknown".
pub jobs_states_counts :
    (jobs : List Value) (counts : Dict ℕ) (total : ℕ)
    → jobs_states jobs ≡ ok (counts, total)
    → (total ≡ length jobs)
      × (sum counts ≡ total)
      × (keys counts ≡ base_states)
      × ((k : String) → or_else (get counts k) 0 ≡ tally base_states k jobs)
unfolding jobs_states
jobs_states_counts jobs counts total h =
    let (z, row) = sum-zeros base_states in
    let (t, s, ks, gs) = count_jobs_effect jobs (zeros base_states) counts 0 total h in
    (
      omega arith,
      omega arith,
      ks ∙ row,
      λ k. omega (arith, gs k, get-zeros base_states k, ap (λ row. tally row k jobs) row),
    )
