-- ===== src/Slurmrestd/Adapters.antt =====
-- slurmweb/slurmrestd/adapters: what lifts the data of an old API version to the next version, and
-- the chain of these steps. Adapters change values in place; a JSON document shares no part with
-- another, so a changed value stands for the object that was changed.
pub mod Chain
pub mod Effects
pub mod Tests
use slurm_web.Base.{
  ℕ, zero, suc, ◌+◌, ◌-◌, String, ◌≡◌, Bool, true, false, Option, none, some, List, [], ◌∷◌, ◌==◌,
  ◌&&◌, if◌then◌else◌, leb, get_elem?, ℤ, pos, elem, ◌^^◌, ltb, has,
}
use mathlib.Core.List.{reverse}
use slurm_web.Py.Value.{
  Value, null, boolean, int, str, list, dict, Items, nil, cons, Fields, end, field, items_of,
  of_items,
}
use slurm_web.Py.Error.{Exn}
use slurm_web.Py.Result.{Result, ok, raised, ◌>>=◌}
use slurm_web.Py.Ops.{getitem, setitem, iterate}

-- The classes of the registry _ADAPTERS.
pub data Adapter : Type 0 where
  v0_0_41 v0_0_42 v0_0_43 v0_0_44 : Adapter

-- v[k]...[k'] = x
unfoldable pub set_path : Value → String → List String → Value → Result Value
set_path v k [] x = setitem v k x
set_path v k (j ∷ rest) x = do
  inner ← getitem v k
  changed ← set_path inner j rest x
  setitem v k changed

unfoldable pub each : (Value → Result Value) → List Value → Result (List Value)
each f [] = ok []
each f (v ∷ vs) = do v' ← f v; vs' ← each f vs; ok (v' ∷ vs')

-- `for item in data: f(item)`, where f changes the item
unfoldable pub for_each : (Value → Result Value) → Value → Result Value
unfolding each
for_each f (list vs) = do changed ← each f (items_of vs); ok (list (of_items changed))
for_each f data' = do xs ← iterate data'; changed ← each f xs; ok data'

-- {"set": False, "infinite": True, "number": 0}
abbrev pub unset_number : Value
unset_number = dict (
    field "set" (boolean false)
      (field "infinite" (boolean true) (field "number" (int (pos 0)) end)))

-- the same entries in the order of AdapterV0_0_41
abbrev pub unset_count : Value
unset_count = dict (
    field "infinite" (boolean true)
      (field "number" (int (pos 0)) (field "set" (boolean false) end)))

-- AdapterV0_0_41.adapt_slurmdb_qos
unfoldable pub adapt_qos_item : Value → Result Value
unfolding set_path
adapt_qos_item qos = do
  counted ← set_path qos "limits" ("max" ∷ "jobs" ∷ "count" ∷ []) unset_count
  set_path counted "limits" ("max" ∷ "tres" ∷ "minutes" ∷ "total" ∷ []) (list nil)

unfoldable pub copy_field : String → String → Value → Result Value
copy_field to from job = do v ← getitem job from; setitem job to v

-- AdapterV0_0_42.adapt_slurm_jobs
unfoldable pub adapt_job : Value → Result Value
adapt_job job = do
  a ← copy_field "stderr_expanded" "standard_error" job
  b ← copy_field "stdin_expanded" "standard_input" a
  copy_field "stdout_expanded" "standard_output" b

blank : List String → Value → Result Value
unfolding set_path
blank [] step = ok step
blank (k ∷ ks) step = do changed ← set_path step "step" (k ∷ []) (str ""); blank ks changed

adapt_step : Value → Result Value
unfolding blank set_path
adapt_step step = do
  blanked ←
      blank
        ("stderr" ∷ "stderr_expanded" ∷ "stdin" ∷ "stdin_expanded" ∷ "stdout" ∷ "stdout_expanded"
          ∷ [])
        step
  set_path blanked "time" ("limit" ∷ []) unset_number

-- AdapterV0_0_42.adapt_slurmdb_jobs
unfoldable pub adapt_db_job : Value → Result Value
unfolding for_each adapt_step
adapt_db_job job = do
  steps ← getitem job "steps"
  changed ← for_each adapt_step steps
  setitem job "steps" changed

-- The methods adapt_<component>_<key> of BaseAdapter.
unfoldable pub has_method : String → String → Bool
has_method component key =
    if component == "slurm"
    then elem key ("jobs" ∷ "nodes" ∷ "partitions" ∷ "reservations" ∷ "ping" ∷ [])
    else component == "slurmdb" && elem key ("jobs" ∷ "accounts" ∷ "associations" ∷ "qos" ∷ [])

-- What the class overrides, and the identity of the base class.
unfoldable pub run_method : Adapter → String → String → Value → Result Value
unfolding for_each adapt_qos_item adapt_job adapt_db_job
run_method v0_0_41 component key v =
    if component == "slurmdb" && key == "qos" then for_each adapt_qos_item v else ok v
run_method v0_0_42 component key v =
    if component == "slurm" && key == "jobs"
    then for_each adapt_job v
    else if component == "slurmdb" && key == "jobs"
    then for_each adapt_db_job v
    else ok v
run_method v0_0_43 component key v = ok v
run_method v0_0_44 component key v = ok v

-- BaseAdapter.adapt, which returns None for a key without a method
unfoldable pub adapt : Adapter → String → String → Value → Result Value
unfolding has_method run_method
adapt a component key v = if has_method component key then run_method a component key v else ok null

-- _ADAPTERS.get(version)
unfoldable pub adapter_of : String → Option Adapter
adapter_of version =
    if version == "0.0.41"
    then some v0_0_41
    else if version == "0.0.42"
    then some v0_0_42
    else if version == "0.0.43"
    then some v0_0_43
    else if version == "0.0.44"
    then some v0_0_44
    else none

-- xs.index(x), `none` for the ValueError
unfoldable pub index : String → List String → Option ℕ
index x [] = none
index x (y ∷ ys) =
    if y == x then some 0 else elim (index x ys) [ none ↦ none | some i ↦ some (suc i) ]

add_adapter : Option String → List Adapter → List Adapter
unfolding adapter_of
add_adapter none chain = chain
add_adapter (some version) chain = elim (adapter_of version) [ none ↦ chain | some a ↦ a ∷ chain ]

-- `for i in range(from_idx, to_idx)`, with the number of rounds left
unfoldable pub chain_from : ℕ → ℕ → List String → List Adapter
unfolding add_adapter
chain_from zero i versions = []
chain_from (suc left) i versions =
    add_adapter (get_elem? versions i) (chain_from left (suc i) versions)

chain_between : Option ℕ → Option ℕ → List String → List Adapter
unfolding chain_from
chain_between none to versions = []
chain_between (some from) none versions = []
chain_between (some from) (some to) versions =
    if leb to from then [] else chain_from (to - from) from versions

unfoldable pub build_adaptation_chain : String → String → List String → List Adapter
unfolding chain_between index
build_adaptation_chain from_version to_version supported_versions =
    let versions = reverse supported_versions in
    chain_between (index from_version versions) (index to_version versions) versions

-- The loop over the chain in SlurmrestdAdapter._request.
unfoldable pub run_chain : List Adapter → String → String → Value → Result Value
unfolding adapt
run_chain [] component key v = ok v
run_chain (a ∷ chain) component key v = do
  adapted ← adapt a component key v
  run_chain chain component key adapted
