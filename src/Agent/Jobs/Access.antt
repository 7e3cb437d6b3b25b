-- ===== src/Agent/Jobs/Access.antt =====
-- Whose jobs a user is shown (slurmweb/views/agent.py).
use slurm_web.Base.{
  ℕ, String, ◌≡◌, ◌≤◌, refl, Bool, true, false, Option, none, some, List, arith, pos, All, Sieve,
  done, kept, dropped, lower, parse_int, codes, ap, ◌∙◌,
}
use slurm_web.Py.Value.{Value}
use slurm_web.Py.Error.{http_error}
use slurm_web.Py.Result.{Result, ok, raised, >>=-eq-ok}
use slurm_web.Py.Ops.{iterate}
use slurm_web.Py.Exec.{proceed-eq-ok}
use slurm_web.Slurmrestd.Jobs.{select}
use slurm_web.Slurmrestd.Jobs.Current.{select-Sieve}
use slurm_web.Agent.Api.{Api}
use slurm_web.Agent.Errors.{slurmrest}
use slurm_web.Agent.Jobs.{
  User, is_owned, own_only, restrict, withhold, clamp_hours, chosen_node, jobs, job, jobs_past,
  listed,
}

-- Every job of the list is the user's, where the user may not see the others.
abbrev pub Own : User → String → String → List Value → Type 0
Own user view key xs =
    user.allowed view ≡ false → All (λ x. is_owned key (lower user.login) x ≡ ok true) xs

select-All :
    (test : Value → Result Bool) (ys xs : List Value)
    → select test ys ≡ ok xs
    → All (λ x. test x ≡ ok true) xs
select-All test ys xs h = kept-All (select-Sieve test (λ x e. e) (λ x e. e) ys xs h)
  where
    kept-All :
        {xs ys : List Value}
        → Sieve (λ x. test x ≡ ok true) (λ x. test x ≡ ok false) xs ys
        → All (λ x. test x ≡ ok true) xs
    kept-All done = tt
    kept-All (kept e s) = (e, kept-All s)
    kept-All (dropped e s) = kept-All s

own_only-true :
    (user : User) (view own : String) (b : Bool)
    → own_only user view own ≡ ok b
    → user.allowed view ≡ false
    → b ≡ true
unfolding own_only
own_only-true user view own b h f = ground arith

restrict-Own :
    (user : User) (view own key : String) (b : Bool) (ys xs : List Value)
    → own_only user view own ≡ ok b
    → restrict b key user.login ys ≡ ok xs
    → Own user view key xs
unfolding restrict
restrict-Own user view own key true ys xs e h f =
    select-All (is_owned key (lower user.login)) ys xs h
restrict-Own user view own key false ys xs e h f =
    let absent = own_only-true user view own false e f in cc

module _ {S : Type 0} (format : Value → String) (in_nodeset : String → String → Result Bool)
    (api : Api S) where
  -- Where the list of jobs is answered to a user who may not see all jobs, asked for a node or not,
  -- every job of the list has the login of the user as its user name, case aside.
  pub jobs-Own :
      (user : User) (name : Option String) (s : S) (xs : List Value)
      → (jobs format in_nodeset api user name s).0 ≡ ok xs
      → Own user "jobs-view" "user_name" xs
  unfolding jobs
  jobs-Own user name s xs h =
      let (own, e, h1) = proceed-eq-ok _ (own_only user "jobs-view" "jobs-view-own", s) h in
      let (ys, e1, h2) = proceed-eq-ok _ (listed format in_nodeset api (chosen_node name) s) h1 in
      restrict-Own user "jobs-view" "jobs-view-own" "user_name" own ys xs e h2

  -- Where the list of past jobs is answered to a user who may not see all past jobs, every job of
  -- it has the login of the user as its user, case aside.
  pub jobs_past-Own :
      (limit : ℕ) (user : User) (hours : Option String) (s : S) (xs : List Value)
      → (jobs_past format in_nodeset api limit user hours s).0 ≡ ok xs
      → Own user "jobs-view-past" "user" xs
  unfolding jobs_past
  jobs_past-Own limit user hours s xs h =
      let (own, e, h1) =
        proceed-eq-ok _ (own_only user "jobs-view-past" "jobs-view-past-own", s) h in
      let (n, e1, h2) = proceed-eq-ok _ (clamp_hours limit hours, s) h1 in
      let (past, e2, h3) = proceed-eq-ok _ (slurmrest format (api.jobs_past n) s) h2 in
      let (ys, e3, h4) =
        proceed-eq-ok _ (iterate past, (slurmrest format (api.jobs_past n) s).1) h3 in
      restrict-Own user "jobs-view-past" "jobs-view-past-own" "user" own ys xs e h4

  withhold-own :
      (b : Bool) (login : String) (v x : Value)
      → withhold b login v ≡ ok x
      → b ≡ true
      → is_owned "user" (lower login) x ≡ ok true
  unfolding withhold
  withhold-own false login v x h t = cc
  withhold-own true login v x h t =
      let (owned, e, h1) = >>=-eq-ok (is_owned "user" (lower login) v) _ h in
      let yes : owned ≡ true = ground arith in
      let same : v ≡ x = ground arith in rw (← same) (e ∙ ap ok yes)

  -- A job that is answered to a user who may not see all jobs has the login of the user as its
  -- user, case aside.
  pub job-own :
      (user : User) (job_id : ℕ) (s : S) (x : Value)
      → (job format in_nodeset api user job_id s).0 ≡ ok x
      → user.allowed "jobs-view" ≡ false
      → is_owned "user" (lower user.login) x ≡ ok true
  unfolding job
  job-own user job_id s x h f =
      let (own, e, h1) = proceed-eq-ok _ (own_only user "jobs-view" "jobs-view-own", s) h in
      let (v, e1, h2) = proceed-eq-ok _ (slurmrest format (api.job job_id) s) h1 in
      withhold-own own user.login v x h2 (own_only-true user "jobs-view" "jobs-view-own" own e f)

  -- A user with neither permission on jobs is refused with a 403 by the list of jobs and by the
  -- view of a job, before anything is asked of slurmrestd.
  pub jobs_forbidden :
      (user : User) (name : Option String) (job_id : ℕ) (s : S)
      → user.allowed "jobs-view" ≡ false
      → user.allowed "jobs-view-own" ≡ false
      → (jobs format in_nodeset api user name s ≡ (
        raised (http_error 403 "User is not allowed to perform action jobs-view or jobs-view-own"),
        s,
      ))
        × (job format in_nodeset api user job_id s ≡ (
          raised
              (http_error 403 "User is not allowed to perform action jobs-view or jobs-view-own"),
          s,
        ))
  unfolding jobs job own_only
  jobs_forbidden user name job_id s v o = rw (v, o) (refl, refl)

-- With a limit of one hour or more, the number of hours that is asked for, where the parameter is a
-- number, is between 1 and the limit, and is the one of the request where that lies in between.
pub clamp_hours_bounds :
    (limit : ℕ) (hours : Option String) (n : ℕ)
    → 1 ≤ limit
    → clamp_hours limit hours ≡ ok n
    → (1 ≤ n)
      × (n ≤ limit)
      × ((text : String) (m : ℕ)
          → hours ≡ some text
          → parse_int (codes text) ≡ some (pos m)
          → 1 ≤ m
          → m ≤ limit
          → n ≡ m)
unfolding clamp_hours
clamp_hours_bounds limit none n l h = cc
clamp_hours_bounds limit (some text) n l h = (
  ground arith,
  ground arith,
  λ t m e p a b. let same : text ≡ t = cc in ground (arith, ap (λ x. parse_int (codes x)) same),
)
