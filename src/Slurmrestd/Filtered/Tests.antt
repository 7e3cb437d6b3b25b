-- ===== src/Slurmrestd/Filtered/Tests.antt =====
-- Jobs of the sample server.
use slurm_web.Base.{
  ℕ, String, ◌≡◌, refl, Bool, true, false, Option, none, some, List, [], ◌∷◌, if◌then◌else◌,
  is_some, get, elem,
}
use slurm_web.Py.Value.{
  Value, Fields, Items, null, str, list, dict, cons, nil, field, end, fields_of, items_of,
}
use slurm_web.Py.Result.{ok}
use slurm_web.Slurmrestd.Client.{Client}
use slurm_web.Slurmrestd.Filtered.{Filters, filter_fields, acctjob, ctldjob, job}
use slurm_web.Slurmrestd.Filtered.Selected.{Exposes, Pairwise, filter_fields-Exposes, job-merges}
use slurm_web.Slurmrestd.Sample.{sample_net, found_client, acct_fields, ctld_fields}

abbrev all_fields : Filters
all_fields = record {
  jobs = none;
  jobs_dbd = none;
  ctldjob = none;
  acctjob = none;
  nodes = none;
  node = none;
  partitions = none;
  accounts = none;
  associations = none;
  reservations = none;
  qos = none;
}

abbrev two_items : Items
two_items = cons (dict acct_fields) (cons (dict ctld_fields) nil)

abbrev users : Value
users =
    list (
      cons (dict (field "user" (str "marie") end))
        (cons (dict (field "user" (str "root") end)) nil))

filtered : filter_fields (list two_items) (some ("user" ∷ [])) ≡ ok users
unfolding filter_fields items_of slurm_web.Py.Value.of_items slurm_web.Py.Value.of_fields
    slurm_web.Base.keys fields_of slurm_web.Base.remove
filtered = refl

filter_fields-Exposes_example :
    (vs' : Items) × (users ≡ list vs')
    × Pairwise (Exposes ("user" ∷ [])) (items_of two_items) (items_of vs')
filter_fields-Exposes_example = filter_fields-Exposes ("user" ∷ []) two_items users filtered

in_slurmdbd : (acctjob sample_net all_fields 7 found_client).0 ≡ ok (dict acct_fields)
unfolding acctjob ctldjob slurm_web.Slurmrestd.Client.request
    slurm_web.Slurmrestd.Client.base_request slurm_web.Slurmrestd.Client.ensure
    slurm_web.Slurmrestd.Client.execute_request slurm_web.Slurmrestd.Client.auth_headers
    slurm_web.Slurmrestd.Client.answer slurm_web.Slurmrestd.Client.send
    slurm_web.Slurmrestd.Auth.headers slurm_web.Slurmrestd.Response.read_response
    slurm_web.Base.show slurm_web.Py.Ops.getitem get fields_of slurm_web.Py.Ops.is_empty
    slurm_web.Py.Ops.iterate items_of slurm_web.Py.Ops.contains slurm_web.Base.has
    slurm_web.Slurmrestd.Adapters.run_chain slurm_web.Slurmrestd.Adapters.adapt
    slurm_web.Slurmrestd.Adapters.has_method slurm_web.Slurmrestd.Adapters.run_method
    slurm_web.Py.Ops.first filter_fields
in_slurmdbd = refl

in_slurmctld :
    (ctldjob sample_net all_fields 7 true (acctjob sample_net all_fields 7 found_client).1).0
    ≡ ok (dict ctld_fields)
unfolding acctjob ctldjob slurm_web.Slurmrestd.Client.request
    slurm_web.Slurmrestd.Client.base_request slurm_web.Slurmrestd.Client.ensure
    slurm_web.Slurmrestd.Client.execute_request slurm_web.Slurmrestd.Client.auth_headers
    slurm_web.Slurmrestd.Client.answer slurm_web.Slurmrestd.Client.send
    slurm_web.Slurmrestd.Auth.headers slurm_web.Slurmrestd.Response.read_response
    slurm_web.Base.show slurm_web.Py.Ops.getitem get fields_of slurm_web.Py.Ops.is_empty
    slurm_web.Py.Ops.iterate items_of slurm_web.Py.Ops.contains slurm_web.Base.has
    slurm_web.Slurmrestd.Adapters.run_chain slurm_web.Slurmrestd.Adapters.adapt
    slurm_web.Slurmrestd.Adapters.has_method slurm_web.Slurmrestd.Adapters.run_method
    slurm_web.Py.Ops.first filter_fields
in_slurmctld = refl

job-merges_example :
    (r : Fields) × ((job sample_net all_fields 7 found_client).0 ≡ ok (dict r))
    × ((k : String)
        → get (fields_of r) k ≡ (
            if is_some (get (fields_of ctld_fields) k)
            then get (fields_of ctld_fields) k
            else get (fields_of acct_fields) k))
unfolding fields_of get
job-merges_example =
    job-merges sample_net all_fields 7 found_client acct_fields ctld_fields in_slurmdbd in_slurmctld
      (refl, (refl, tt))
