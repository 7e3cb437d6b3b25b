-- ===== src/Gateway/Views/Clusters.antt =====
-- The clusters that a user is shown (slurmweb/views/gateway.py).
use slurm_web.Base.{
  String, ◌≡◌, Bool, true, false, Option, none, some, List, [], ◌∷◌, Dict, All, eqb, Bool-cases,
  inl, inr, subst, if◌then◌else◌, ◌&&◌,
}
use slurm_web.Py.Value.{Value}
use slurm_web.Py.Error.{other_error}
use slurm_web.Py.Result.{ok, raised, ok-injective, >>=-eq-ok}
use slurm_web.Py.Ops.{getitem, is_empty}
use slurm_web.Py.Exec.{lift, pure, proceed-eq-ok}
use slurm_web.Gateway.Agents.{SlurmwebAgent}
use slurm_web.Gateway.Views.{
  Request, Response, Env, Cluster, cluster_of, shown_cluster, read_permissions, get_cluster,
  get_clusters, add_cluster, request_agent, clusters,
}

-- The user may perform an action on a cluster.
pub HasActions : Cluster → Type 0
HasActions c =
    (actions : Value) × (getitem c.permissions "actions" ≡ ok actions)
    × (is_empty actions ≡ ok false)

abbrev Shown : Option Cluster → Type 0
Shown none = Unit {0}
Shown (some c) = HasActions c

cluster_of-Shown :
    (a : SlurmwebAgent) (permissions actions : Value) (nothing : Bool) (o : Option Cluster)
    → getitem permissions "actions" ≡ ok actions
    → is_empty actions ≡ ok nothing
    → ok (if nothing && true then none else some (cluster_of a permissions)) ≡ ok o
    → Shown o
unfolding HasActions
cluster_of-Shown a permissions actions true o g h q = subst Shown (ok-injective q) tt
cluster_of-Shown a permissions actions false o g h q = subst Shown (ok-injective q) (actions, g, h)

shown_cluster-Shown :
    (a : SlurmwebAgent) (permissions : Value) (o : Option Cluster)
    → shown_cluster true a permissions ≡ ok o
    → Shown o
unfolding shown_cluster
shown_cluster-Shown a permissions o h =
    let (actions, g, h1) = >>=-eq-ok (getitem permissions "actions") _ h in
    let (nothing, k, h2) = >>=-eq-ok (is_empty actions) _ h1 in
    cluster_of-Shown a permissions actions nothing o g k h2

answered-Shown :
    (a : SlurmwebAgent) (document : Option Value) (o : Option Cluster)
    → (elim document [
      | none ↦ raised (other_error "ContentTypeError")
      | some permissions ↦ shown_cluster true a permissions
    ])
      ≡ ok o
    → Shown o
answered-Shown a none o h = cc
answered-Shown a (some permissions) o h = shown_cluster-Shown a permissions o h

read_permissions-Shown :
    (a : SlurmwebAgent) (response : Response) (o : Option Cluster)
    → read_permissions true a response ≡ ok o
    → Shown o
unfolding read_permissions
read_permissions-Shown a response o h = elim (Bool-cases (eqb response.status 200)) [
  | inl e ↦ answered-Shown a response.document o (rw e at h)
  | inr e ↦ subst Shown (ok-injective (rw e at h)) tt
]

module _ {S : Type 0} (env : Env S) (request : Request) where
  get_cluster-Shown :
      (cluster : String) (a : SlurmwebAgent) (s : S) (o : Option Cluster)
      → (get_cluster env request true cluster a s).0 ≡ ok o
      → Shown o
  unfolding get_cluster
  get_cluster-Shown cluster a s o h =
      let m = request_agent env request cluster "permissions" (some request.token) true s in
      let (sent, e, h1) = proceed-eq-ok _ m h in
      let (response, e', h2) =
        proceed-eq-ok (λ r. lift (read_permissions true a r)) (env.enter sent m.1) h1 in
      read_permissions-Shown a response o h2

  add_cluster-Shown :
      (o : Option Cluster) (cs : List Cluster)
      → Shown o
      → All HasActions cs
      → All HasActions (add_cluster env request true o cs)
  add_cluster-Shown none cs h a = a
  add_cluster-Shown (some c) cs h a = (h, a)

  get_clusters-HasActions :
      (agents : Dict SlurmwebAgent) (s : S) (cs : List Cluster)
      → (get_clusters env request true agents s).0 ≡ ok cs
      → All HasActions cs
  unfolding get_clusters
  get_clusters-HasActions [] s cs h = subst (All HasActions) (ok-injective h) tt
  get_clusters-HasActions ((cluster, a) ∷ agents) s cs h =
      let m = get_cluster env request true cluster a s in
      let (o, e, h1) = proceed-eq-ok _ m h in
      let n = get_clusters env request true agents m.1 in
      let (rest, e', h2) = proceed-eq-ok (λ r. pure (add_cluster env request true o r)) n h1 in
      subst (All HasActions) (ok-injective h2) (
        add_cluster-Shown o rest (get_cluster-Shown cluster a s o e)
          (get_clusters-HasActions agents m.1 rest e'))

  -- Where denied clusters are hidden, a user is shown only clusters on which they may do something.
  pub clusters-HasActions :
      (s : S) (cs : List Cluster) → (clusters env request true s).0 ≡ ok cs → All HasActions cs
  unfolding clusters
  clusters-HasActions s cs h =
      let (known, e, h1) = proceed-eq-ok (get_clusters env request true) (env.agents s) h in
      get_clusters-HasActions known (env.agents s).1 cs h1
