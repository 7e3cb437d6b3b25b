-- ===== src/Slurmrestd/Resources.antt =====
-- slurmweb/slurmrestd/__init__.py: what the client computes from the list of nodes.
pub mod Balance
pub mod Tests
use slurm_web.Base.{
  ℕ, String, ◌≡◌, Bool, true, false, Option, none, some, List, [], ◌∷◌, if◌then◌else◌, codes, split,
  parse_int, Text, same, ℤ, pos, ◌+ℤ◌, ◌-ℤ◌,
}
use slurm_web.Py.Value.{Value}
use slurm_web.Py.Error.{Exn, value_error}
use slurm_web.Py.Result.{Result, ok, raised, or_raise, ◌>>=◌}
use slurm_web.Py.Ops.{getitem, contains, as_int, as_str}

-- xs[0] and xs.pop() of the result of a split, which is not empty
abbrev pub head_or : Text → List Text → Text
head_or d [] = d
head_or d (x ∷ xs) = x

abbrev pub last_or : Text → List Text → Text
last_or d [] = d
last_or d (x ∷ xs) = last_or x xs

-- one entry, without the index that may follow it
unfoldable pub entry_gpus : Text → Result ℤ
entry_gpus [] = ok (pos 0)
entry_gpus (c ∷ s) =
    let gres = split b':' (head_or [] (split b'(' (c ∷ s))) in
    if same (head_or [] gres) (codes "gpu")
    then or_raise (parse_int (last_or [] gres)) value_error
    else ok (pos 0)

unfoldable pub sum_gpus : ℤ → List Text → Result ℤ
unfolding entry_gpus
sum_gpus result [] = ok result
sum_gpus result (gres ∷ rest) = do n ← entry_gpus gres; sum_gpus (result +ℤ n) rest

-- node_gres_extract_gpus
unfoldable pub node_gres_extract_gpus : Value → Result ℤ
unfolding sum_gpus
node_gres_extract_gpus gres_full = do s ← as_str gres_full; sum_gpus (pos 0) (split b',' (codes s))

-- The keys of the three dictionaries of resources_states.
pub data State : Type 0 where
  idle mixed allocated drain down error fail unknown : State

-- Such a dictionary.
pub record States : Type 0 where
  pub idle : ℤ
  pub mixed : ℤ
  pub allocated : ℤ
  pub drain : ℤ
  pub down : ℤ
  pub error : ℤ
  pub fail : ℤ
  pub unknown : ℤ

abbrev pub no_states : States
no_states = record {
  idle = pos 0;
  mixed = pos 0;
  allocated = pos 0;
  drain = pos 0;
  down = pos 0;
  error = pos 0;
  fail = pos 0;
  unknown = pos 0;
}

-- states[k] += n
unfoldable pub add : States → State → ℤ → States
add s idle n = record s { idle = s.idle +ℤ n }
add s mixed n = record s { mixed = s.mixed +ℤ n }
add s allocated n = record s { allocated = s.allocated +ℤ n }
add s drain n = record s { drain = s.drain +ℤ n }
add s down n = record s { down = s.down +ℤ n }
add s error n = record s { error = s.error +ℤ n }
add s fail n = record s { fail = s.fail +ℤ n }
add s unknown n = record s { unknown = s.unknown +ℤ n }

-- The variables of the loop.
pub record Totals : Type 0 where
  pub nodes_states : States
  pub cores_states : States
  pub gpus_states : States
  pub nodes_total : ℤ
  pub cores_total : ℤ
  pub gpus_total : ℤ

abbrev pub no_totals : Totals
no_totals = record {
  nodes_states = no_states;
  cores_states = no_states;
  gpus_states = no_states;
  nodes_total = pos 0;
  cores_total = pos 0;
  gpus_total = pos 0;
}

-- a branch that counts the whole node under one state
unfoldable pub count_whole : State → Value → ℤ → Totals → Result Totals
count_whole k cpus node_gpus t = do
  cores ← as_int cpus
  ok (record t {
    nodes_states = add t.nodes_states k (pos 1);
    cores_states = add t.cores_states k cores;
    gpus_states = add t.gpus_states k node_gpus;
  })

-- the GPU of a node in use
abbrev pub split_gpus : ℤ → ℤ → States → States
split_gpus node_gpus used s = add (add s allocated used) idle (node_gpus -ℤ used)

unfoldable pub count_mixed : Value → ℤ → Totals → Result Totals
count_mixed node node_gpus t = do
  alloc ← getitem node "alloc_cpus"
  alloc_cores ← as_int alloc
  free ← getitem node "alloc_idle_cpus"
  idle_cores ← as_int free
  used ← getitem node "gres_used"
  allocated_gpus ← node_gres_extract_gpus used
  ok (record t {
    nodes_states = add t.nodes_states mixed (pos 1);
    cores_states = add (add t.cores_states allocated alloc_cores) idle idle_cores;
    gpus_states = split_gpus node_gpus allocated_gpus t.gpus_states;
  })

unfoldable pub count_allocated : Value → Value → ℤ → Totals → Result Totals
count_allocated node cpus node_gpus t = do
  cores ← as_int cpus
  used ← getitem node "gres_used"
  allocated_gpus ← node_gres_extract_gpus used
  ok (record t {
    nodes_states = add t.nodes_states allocated (pos 1);
    cores_states = add t.cores_states allocated cores;
    gpus_states = split_gpus node_gpus allocated_gpus t.gpus_states;
  })

-- What an `elif` of the ladder leads to.
unfoldable pub branch : State → Value → Value → ℤ → Totals → Result Totals
branch mixed node cpus node_gpus t = count_mixed node node_gpus t
branch allocated node cpus node_gpus t = count_allocated node cpus node_gpus t
branch k node cpus node_gpus t = count_whole k cpus node_gpus t

-- The ladder: the tests in the order of the source.
unfoldable pub node_state : List (String × State) → Value → Result State
node_state [] node = ok unknown
node_state ((flag, k) ∷ rest) node = do
  states ← getitem node "state"
  hit ← contains flag states
  let next = node_state rest node
  if hit then ok k else next

abbrev pub ladder : List (String × State)
ladder =
    ("ERROR", error)
    ∷ ("FAIL", fail)
    ∷ ("MIXED", mixed)
    ∷ ("ALLOCATED", allocated)
    ∷ ("DOWN", down)
    ∷ ("DRAIN", drain)
    ∷ ("IDLE", idle)
    ∷ []

-- One round of the loop.
unfoldable pub count_node : Value → Totals → Result Totals
count_node node t = do
  cpus ← getitem node "cpus"
  gres ← getitem node "gres"
  node_gpus ← node_gres_extract_gpus gres
  k ← node_state ladder node
  t' ← branch k node cpus node_gpus t
  cores ← as_int cpus
  ok (record t' {
    nodes_total = t'.nodes_total +ℤ pos 1;
    cores_total = t'.cores_total +ℤ cores;
    gpus_total = t'.gpus_total +ℤ node_gpus;
  })

unfoldable pub count_nodes : Totals → List Value → Result Totals
count_nodes t [] = ok t
count_nodes t (node ∷ nodes) = do t' ← count_node node t; count_nodes t' nodes

-- resources_states, on the result of self.nodes()
unfoldable pub resources_states : List Value → Result Totals
resources_states nodes = count_nodes no_totals nodes
