-- ===== src/Slurmrestd/Resources/Tests.antt =====
-- The statistics of two nodes.
use slurm_web.Base.{
  ℕ, String, ◌≡◌, refl, Bool, true, false, List, [], ◌∷◌, ℤ, pos, length, All, arith, ap, ◌∙◌, sym,
}
use slurm_web.Py.Value.{Value, Fields, str, int, list, dict, cons, nil, field, end}
use slurm_web.Py.Result.{ok}
use slurm_web.Slurmrestd.Resources.{
  Totals, States, no_states, mixed, node_state, ladder, resources_states,
}
use slurm_web.Slurmrestd.Resources.Balance.{
  NodesBalance, GpusBalance, Adds, resources_states_balance,
}

abbrev node : String → Value
node state = dict (
    field "cpus" (int (pos 8)) (
      field "gres" (str "gpu:h100:4(S:0-1),nvme:2") (
        field "state" (list (cons (str state) nil)) (
          field "alloc_cpus" (int (pos 6)) (
            field "alloc_idle_cpus" (int (pos 2))
              (field "gres_used" (str "gpu:h100:3(IDX:0-2)") end))))))

abbrev two_nodes : List Value
two_nodes = node "MIXED" ∷ node "IDLE" ∷ []

abbrev totals : Totals
totals = record {
  nodes_states = record no_states { mixed = pos 1; idle = pos 1 };
  cores_states = record no_states { allocated = pos 6; idle = pos 10 };
  gpus_states = record no_states { allocated = pos 3; idle = pos 5 };
  nodes_total = pos 2;
  cores_total = pos 16;
  gpus_total = pos 8;
}

counted : resources_states two_nodes ≡ ok totals
unfolding resources_states slurm_web.Slurmrestd.Resources.count_nodes
    slurm_web.Slurmrestd.Resources.count_node slurm_web.Py.Ops.getitem slurm_web.Base.get
    slurm_web.Py.Value.fields_of slurm_web.Slurmrestd.Resources.node_gres_extract_gpus
    slurm_web.Py.Ops.as_str slurm_web.Base.split slurm_web.Base.parse_int node_state
    slurm_web.Py.Ops.contains slurm_web.Py.Value.items_of slurm_web.Py.Value.equals_str
    slurm_web.Slurmrestd.Resources.branch slurm_web.Slurmrestd.Resources.count_mixed
    slurm_web.Py.Ops.as_int slurm_web.Base.◌+ℤ◌ slurm_web.Base.◌-ℤ◌
    slurm_web.Slurmrestd.Resources.add slurm_web.Slurmrestd.Resources.count_whole
counted = refl

resources_states_balance_example :
    NodesBalance totals × GpusBalance totals × (totals.nodes_total ≡ pos (length two_nodes))
resources_states_balance_example = resources_states_balance two_nodes totals counted

mixed-Adds : Adds (node "MIXED")
unfolding slurm_web.Py.Ops.getitem slurm_web.Base.get slurm_web.Py.Value.fields_of
    slurm_web.Py.Ops.as_int slurm_web.Base.◌+ℤ◌
mixed-Adds c a i vc va vi e1 e2 e3 e4 e5 e6 =
    let cores : pos 8 ≡ c = cc in
    let used : pos 6 ≡ a = cc in let free : pos 2 ≡ i = cc in rw (← cores, ← used, ← free) refl

idle-not_mixed : node_state ladder (node "IDLE") ≡ ok mixed → Adds (node "IDLE")
unfolding node_state slurm_web.Py.Ops.getitem slurm_web.Base.get slurm_web.Py.Value.fields_of
    slurm_web.Py.Ops.contains slurm_web.Py.Value.items_of slurm_web.Py.Value.equals_str
idle-not_mixed h = absurd (cc)
