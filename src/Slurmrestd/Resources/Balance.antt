-- ===== src/Slurmrestd/Resources/Balance.antt =====
-- The books of resources_states balance (slurmweb/slurmrestd/__init__.py).
use slurm_web.Base.{
  ◌≡◌, refl, List, [], ◌∷◌, int_laws, ℤ, pos, ◌+ℤ◌, ◌-ℤ◌, length, All, ◌∙◌, sym, ap, subst,
}
use slurm_web.Py.Value.{Value}
use slurm_web.Py.Result.{ok, >>=-eq-ok, ok-injective}
use slurm_web.Py.Ops.{getitem, as_int}
use slurm_web.Slurmrestd.Resources.{
  State, States, Totals, idle, mixed, allocated, drain, down, error, fail, unknown, no_totals,
  no_states, add, count_whole, count_mixed, count_allocated, branch, node_state, ladder, count_node,
  count_nodes, resources_states, node_gres_extract_gpus,
}

-- The sum over the keys of one dictionary.
abbrev pub sum_of : States → ℤ
sum_of s = s.idle +ℤ s.mixed +ℤ s.allocated +ℤ s.drain +ℤ s.down +ℤ s.error +ℤ s.fail +ℤ s.unknown

zero_sum : sum_of no_states ≡ pos 0
unfolding ◌+ℤ◌
zero_sum = refl

sum-add : (s : States) (k : State) (n : ℤ) → sum_of (add s k n) ≡ sum_of s +ℤ n
unfolding add
sum-add s idle n = omega int_laws
sum-add s mixed n = omega int_laws
sum-add s allocated n = omega int_laws
sum-add s drain n = omega int_laws
sum-add s down n = omega int_laws
sum-add s error n = omega int_laws
sum-add s fail n = omega int_laws
sum-add s unknown n = omega int_laws

-- What a branch adds: one node, the GPU of the node, and these cores. The totals come later.
pub record Counted (gpus cores : ℤ) (t t' : Totals) : Type 0 where
  pub nodes : sum_of t'.nodes_states ≡ sum_of t.nodes_states +ℤ pos 1
  pub gpus_sum : sum_of t'.gpus_states ≡ sum_of t.gpus_states +ℤ gpus
  pub cores_sum : sum_of t'.cores_states ≡ sum_of t.cores_states +ℤ cores
  pub nodes_total : t'.nodes_total ≡ t.nodes_total
  pub cores_total : t'.cores_total ≡ t.cores_total
  pub gpus_total : t'.gpus_total ≡ t.gpus_total

sum-split_gpus :
    (s : States) (g used : ℤ) → sum_of (add (add s allocated used) idle (g -ℤ used)) ≡ sum_of s +ℤ g
sum-split_gpus s g used =
    sum-add (add s allocated used) idle (g -ℤ used)
    ∙ ap (λ n. n +ℤ (g -ℤ used)) (sum-add s allocated used)
    ∙ omega int_laws

count_whole-Counted :
    (k : State) (cpus : Value) (g : ℤ) (t t' : Totals)
    → count_whole k cpus g t ≡ ok t'
    → (c : ℤ) × (as_int cpus ≡ ok c) × Counted g c t t'
unfolding count_whole
count_whole-Counted k cpus g t t' h =
    let (c, e, h1) = >>=-eq-ok (as_int cpus) _ h in
    (
      c,
      e,
      subst (Counted g c t) (ok-injective h1) (record {
        nodes = sum-add t.nodes_states k (pos 1);
        gpus_sum = sum-add t.gpus_states k g;
        cores_sum = sum-add t.cores_states k c;
        nodes_total = refl;
        cores_total = refl;
        gpus_total = refl;
      }),
    )

-- The cores of a node in state MIXED are those allocated and those idle.
abbrev pub Adds : Value → Type 0
Adds node =
    (c a i : ℤ) (vc va vi : Value)
    → getitem node "cpus" ≡ ok vc
    → getitem node "alloc_cpus" ≡ ok va
    → getitem node "alloc_idle_cpus" ≡ ok vi
    → as_int vc ≡ ok c
    → as_int va ≡ ok a
    → as_int vi ≡ ok i
    → a +ℤ i ≡ c

count_mixed-Counted :
    (node : Value) (g : ℤ) (t t' : Totals)
    → count_mixed node g t ≡ ok t'
    → (a : ℤ) × (i : ℤ) × (va : Value) × (vi : Value) × (getitem node "alloc_cpus" ≡ ok va)
      × (getitem node "alloc_idle_cpus" ≡ ok vi)
      × (as_int va ≡ ok a)
      × (as_int vi ≡ ok i)
      × Counted g (a +ℤ i) t t'
unfolding count_mixed
count_mixed-Counted node g t t' h =
    let (va, e, h1) = >>=-eq-ok (getitem node "alloc_cpus") _ h in
    let (a, e1, h2) = >>=-eq-ok (as_int va) _ h1 in
    let (vi, e2, h3) = >>=-eq-ok (getitem node "alloc_idle_cpus") _ h2 in
    let (i, e3, h4) = >>=-eq-ok (as_int vi) _ h3 in
    let (vu, e4, h5) = >>=-eq-ok (getitem node "gres_used") _ h4 in
    let (u, e5, h6) = >>=-eq-ok (node_gres_extract_gpus vu) _ h5 in
    (
      a,
      i,
      va,
      vi,
      e,
      e2,
      e1,
      e3,
      subst (Counted g (a +ℤ i) t) (ok-injective h6) (record {
        nodes = sum-add t.nodes_states mixed (pos 1);
        gpus_sum = sum-split_gpus t.gpus_states g u;
        cores_sum =
            sum-add (add t.cores_states allocated a) idle i
            ∙ ap (λ n. n +ℤ i) (sum-add t.cores_states allocated a)
            ∙ omega int_laws;
        nodes_total = refl;
        cores_total = refl;
        gpus_total = refl;
      }),
    )

count_allocated-Counted :
    (node cpus : Value) (g : ℤ) (t t' : Totals)
    → count_allocated node cpus g t ≡ ok t'
    → (c : ℤ) × (as_int cpus ≡ ok c) × Counted g c t t'
unfolding count_allocated
count_allocated-Counted node cpus g t t' h =
    let (c, e, h1) = >>=-eq-ok (as_int cpus) _ h in
    let (vu, e4, h5) = >>=-eq-ok (getitem node "gres_used") _ h1 in
    let (u, e5, h6) = >>=-eq-ok (node_gres_extract_gpus vu) _ h5 in
    (
      c,
      e,
      subst (Counted g c t) (ok-injective h6) (record {
        nodes = sum-add t.nodes_states allocated (pos 1);
        gpus_sum = sum-split_gpus t.gpus_states g u;
        cores_sum = sum-add t.cores_states allocated c;
        nodes_total = refl;
        cores_total = refl;
        gpus_total = refl;
      }),
    )

-- Every branch counts one node and its GPU, and some number of cores: those of the node, but for a
-- node in state MIXED, where the two parts of the node are added.
pub record Branched (node cpus : Value) (g : ℤ) (k : State) (t t' : Totals) : Type 0 where
  pub cores : ℤ
  pub counted : Counted g cores t t'
  pub exact :
      (c : ℤ)
      → as_int cpus ≡ ok c
      → (k ≡ mixed → Adds node)
      → getitem node "cpus" ≡ ok cpus
      → cores ≡ c

branch-Branched :
    (k : State) (node cpus : Value) (g : ℤ) (t t' : Totals)
    → branch k node cpus g t ≡ ok t'
    → Branched node cpus g k t t'
unfolding branch
branch-Branched mixed node cpus g t t' h =
    let (a, i, va, vi, e, e2, e1, e3, counted) = count_mixed-Counted node g t t' h in
    record {
      cores = a +ℤ i;
      counted = counted;
      exact = λ c ec adds en. adds refl c a i cpus va vi en e e2 ec e1 e3;
    }
branch-Branched allocated node cpus g t t' h =
    let (c, e, counted) = count_allocated-Counted node cpus g t t' h in
    record { cores = c; counted = counted; exact = λ d ed adds en. cc }
branch-Branched k node cpus g t t' h =
    let (c, e, counted) = count_whole-Counted k cpus g t t' h in
    record { cores = c; counted = counted; exact = λ d ed adds en. cc }

-- One round adds the same to the sums and to the totals.
record Round (node : Value) (t t' : Totals) : Type 0 where
  nodes : sum_of t'.nodes_states ≡ sum_of t.nodes_states +ℤ pos 1
  nodes_total : t'.nodes_total ≡ t.nodes_total +ℤ pos 1
  gpus : ℤ
  gpus_sum : sum_of t'.gpus_states ≡ sum_of t.gpus_states +ℤ gpus
  gpus_total : t'.gpus_total ≡ t.gpus_total +ℤ gpus
  cores : ℤ
  cores_total : t'.cores_total ≡ t.cores_total +ℤ cores
  cores_sum :
      (node_state ladder node ≡ ok mixed → Adds node)
      → sum_of t'.cores_states ≡ sum_of t.cores_states +ℤ cores

count_node-Round : (node : Value) (t t' : Totals) → count_node node t ≡ ok t' → Round node t t'
unfolding count_node
count_node-Round node t t' h =
    let (cpus, e1, h1) = >>=-eq-ok (getitem node "cpus") _ h in
    let (gres, e2, h2) = >>=-eq-ok (getitem node "gres") _ h1 in
    let (g, e3, h3) = >>=-eq-ok (node_gres_extract_gpus gres) _ h2 in
    let (k, e4, h4) = >>=-eq-ok (node_state ladder node) _ h3 in
    let (t1, e5, h5) = >>=-eq-ok (branch k node cpus g t) _ h4 in
    let (c, e6, h6) = >>=-eq-ok (as_int cpus) _ h5 in
    let b = branch-Branched k node cpus g t t1 e5 in
    subst (Round node t) (ok-injective h6) (record {
      nodes = b.counted.nodes;
      nodes_total = ap (λ n. n +ℤ pos 1) b.counted.nodes_total;
      gpus = g;
      gpus_sum = b.counted.gpus_sum;
      gpus_total = ap (λ n. n +ℤ g) b.counted.gpus_total;
      cores = c;
      cores_total = ap (λ n. n +ℤ c) b.counted.cores_total;
      cores_sum = λ adds.
          b.counted.cores_sum
          ∙ ap (λ n. sum_of t.cores_states +ℤ n) (b.exact c e6 (λ m. adds (e4 ∙ ap ok m)) e1);
    })

-- The sums over the states are the totals.
abbrev pub NodesBalance : Totals → Type 0
NodesBalance t = sum_of t.nodes_states ≡ t.nodes_total

abbrev pub GpusBalance : Totals → Type 0
GpusBalance t = sum_of t.gpus_states ≡ t.gpus_total

abbrev pub CoresBalance : Totals → Type 0
CoresBalance t = sum_of t.cores_states ≡ t.cores_total

count_nodes_balance :
    (nodes : List Value) (t t' : Totals)
    → count_nodes t nodes ≡ ok t'
    → NodesBalance t
    → GpusBalance t
    → NodesBalance t' × GpusBalance t' × (t'.nodes_total ≡ t.nodes_total +ℤ pos (length nodes))
unfolding count_nodes
count_nodes_balance [] t t' h bn bg =
    subst (λ s. NodesBalance s × GpusBalance s × (s.nodes_total ≡ t.nodes_total +ℤ pos 0))
      (ok-injective h) (bn, bg, omega int_laws)
count_nodes_balance (node ∷ nodes) t t' h bn bg =
    let (t1, e, h1) = >>=-eq-ok (count_node node t) _ h in
    let r = count_node-Round node t t1 e in
    let (n, g, l) =
      count_nodes_balance nodes t1 t' h1 (r.nodes ∙ ap (λ n. n +ℤ pos 1) bn ∙ sym r.nodes_total)
        (r.gpus_sum ∙ ap (λ n. n +ℤ r.gpus) bg ∙ sym r.gpus_total) in
    (n, g, l ∙ ap (λ n. n +ℤ pos (length nodes)) r.nodes_total ∙ omega int_laws)

-- Where the statistics of the nodes are computed without an exception, the nodes of the states add
-- up to the total of nodes, which is the number of nodes, and the GPU of the states to the total of
-- GPU.
pub resources_states_balance :
    (nodes : List Value) (t : Totals)
    → resources_states nodes ≡ ok t
    → NodesBalance t × GpusBalance t × (t.nodes_total ≡ pos (length nodes))
unfolding resources_states
resources_states_balance nodes t h =
    let (n, g, l) = count_nodes_balance nodes no_totals t h zero_sum zero_sum in
    (n, g, l ∙ omega int_laws)

count_nodes_cores :
    (nodes : List Value) (t t' : Totals)
    → All (λ node. node_state ladder node ≡ ok mixed → Adds node) nodes
    → count_nodes t nodes ≡ ok t'
    → CoresBalance t
    → CoresBalance t'
unfolding count_nodes
count_nodes_cores [] t t' adds h b = subst CoresBalance (ok-injective h) b
count_nodes_cores (node ∷ nodes) t t' adds h b =
    let (t1, e, h1) = >>=-eq-ok (count_node node t) _ h in
    let r = count_node-Round node t t1 e in
    count_nodes_cores nodes t1 t' adds.1 h1
      (r.cores_sum adds.0 ∙ ap (λ n. n +ℤ r.cores) b ∙ sym r.cores_total)

-- Where the statistics of the nodes are computed without an exception, and the cores of each node
-- in state MIXED are its allocated and its idle ones together, the cores of the states add up to
-- the total of cores.
pub resources_states_cores :
    (nodes : List Value) (t : Totals)
    → All (λ node. node_state ladder node ≡ ok mixed → Adds node) nodes
    → resources_states nodes ≡ ok t
    → CoresBalance t
unfolding resources_states
resources_states_cores nodes t adds h = count_nodes_cores nodes no_totals t adds h zero_sum
