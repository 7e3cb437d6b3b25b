-- ===== src/Slurmrestd/Adapters/Effects.antt =====
-- What the adapters do to the data (slurmweb/slurmrestd/adapters).
use slurm_web.Base.{
  String, ◌≡◌, refl, Bool-cases, inl, inr, true, some, List, [], ◌∷◌, ◌==◌, eq_iff, arith, length,
  ap, ◌&&◌, Dict, get, put, get-put, if◌then◌else◌, sym, ◌∙◌,
}
use slurm_web.Py.Value.{
  Value, list, dict, Items, Fields, items_of, of_items, fields_of, of_fields, items_of-of_items,
  fields_of-of_fields, end, field,
}
use slurm_web.Py.Result.{Result, ok, >>=-eq-ok}
use slurm_web.Py.Ops.{getitem, setitem}
use slurm_web.Slurmrestd.Adapters.{
  Adapter, v0_0_41, v0_0_42, v0_0_43, v0_0_44, each, for_each, adapt_job, copy_field, run_method,
  adapt, has_method, run_chain, adapt_qos_item, adapt_db_job,
}

-- The names of the expanded fields, with the fields that they are copied from.
abbrev Expanded : Dict Value → Dict Value → Value → Value → Value → Type 0
Expanded before after e i o =
    (k : String)
    → get after k ≡ (
        if k == "stdout_expanded"
        then some o
        else if k == "stdin_expanded"
        then some i
        else if k == "stderr_expanded"
        then some e
        else get before k)

copy_field_lem :
    (to from : String) (d : Dict Value) (v : Value)
    → get d from ≡ some v
    → copy_field to from (dict (of_fields d)) ≡ ok (dict (of_fields (put d to v)))
unfolding copy_field getitem setitem
copy_field_lem to from d v h = rw (fields_of-of_fields, h)

of_fields-fields_of : (fs : Fields) → of_fields (fields_of fs) ≡ fs
unfolding of_fields fields_of
of_fields-fields_of end = refl
of_fields-fields_of (field k v fs) = ap (field k v) (of_fields-fields_of fs)

-- A job with the three `standard_*` fields gets the three expanded ones as copies of them, and keeps
-- every other field.
pub adapt_job_copies :
    (fs : Fields) (e i o : Value)
    → get (fields_of fs) "standard_error" ≡ some e
    → get (fields_of fs) "standard_input" ≡ some i
    → get (fields_of fs) "standard_output" ≡ some o
    → (after : Fields) × (adapt_job (dict fs) ≡ ok (dict after))
      × Expanded (fields_of fs) (fields_of after) e i o
unfolding adapt_job
adapt_job_copies fs e i o he hi ho =
    let one = put (fields_of fs) "stderr_expanded" e in
    let two = put one "stdin_expanded" i in
    (
      of_fields (put two "stdout_expanded" o),
      adapted,
      λ k. rw fields_of-of_fields (
          ground (
            arith,
            get-put two "stdout_expanded" k o,
            get-put one "stdin_expanded" k i,
            get-put (fields_of fs) "stderr_expanded" k e,
            eq_iff k "stdout_expanded",
            eq_iff k "stdin_expanded",
            eq_iff k "stderr_expanded",
            eq_iff "stdout_expanded" k,
            eq_iff "stdin_expanded" k,
            eq_iff "stderr_expanded" k,
          )),
    )
  where
    adapted :
        adapt_job (dict fs)
        ≡ ok (
            dict (
              of_fields (
                put
                  (put (put (fields_of fs) "stderr_expanded" e) "stdin_expanded" i)
                  "stdout_expanded"
                  o)))
    adapted =
        ap (λ f. adapt_job (dict f)) (sym (of_fields-fields_of fs))
        ∙ rw
            (
              copy_field_lem "stderr_expanded" "standard_error" (fields_of fs) e he,
              copy_field_lem "stdin_expanded" "standard_input"
                  (put (fields_of fs) "stderr_expanded" e) i (rw get-put hi),
            )
            (copy_field_lem "stdout_expanded" "standard_output"
              (put (put (fields_of fs) "stderr_expanded" e) "stdin_expanded" i) o
              (rw (get-put, get-put) ho))

length-each :
    (f : Value → Result Value) (vs vs' : List Value) → each f vs ≡ ok vs' → length vs' ≡ length vs
unfolding each
length-each f [] vs' h = ground arith
length-each f (v ∷ vs) vs' h =
    let (v1, e1, h1) = >>=-eq-ok (f v) _ h in
    let (vs1, e2, h2) = >>=-eq-ok (each f vs) _ h1 in ground (arith, length-each f vs vs1)

-- The result is a list of as many items.
abbrev pub AsLong : Items → Value → Type 0
AsLong vs v = (vs' : Items) × (v ≡ list vs') × (length (items_of vs') ≡ length (items_of vs))

for_each-AsLong :
    (f : Value → Result Value) (vs : Items) (v : Value) → for_each f (list vs) ≡ ok v → AsLong vs v
unfolding for_each
for_each-AsLong f vs v h =
    let (vs1, e, h1) = >>=-eq-ok (each f (items_of vs)) _ h in
    (of_items vs1, ground arith, rw items_of-of_items (length-each f (items_of vs) vs1 e))

self-AsLong : (vs : Items) (v : Value) → ok (list vs) ≡ ok v → AsLong vs v
self-AsLong vs v h = (vs, ground arith, refl)

run_method-AsLong :
    (a : Adapter) (component key : String) (vs : Items) (v : Value)
    → run_method a component key (list vs) ≡ ok v
    → AsLong vs v
unfolding run_method
run_method-AsLong v0_0_41 component key vs v h =
    elim (Bool-cases (component == "slurmdb" && key == "qos")) [
      | inl e ↦ for_each-AsLong adapt_qos_item vs v (rw e at h)
      | inr e ↦ self-AsLong vs v (rw e at h)
    ]
run_method-AsLong v0_0_42 component key vs v h =
    elim (Bool-cases (component == "slurm" && key == "jobs")) [
      | inl e ↦ for_each-AsLong adapt_job vs v (rw e at h)
      | inr e ↦
          let h1 = rw e at h in
          elim (Bool-cases (component == "slurmdb" && key == "jobs")) [
            | inl e1 ↦ for_each-AsLong adapt_db_job vs v (rw e1 at h1)
            | inr e1 ↦ self-AsLong vs v (rw e1 at h1)
          ]
    ]
run_method-AsLong v0_0_43 component key vs v h = self-AsLong vs v h
run_method-AsLong v0_0_44 component key vs v h = self-AsLong vs v h

adapt-AsLong :
    (a : Adapter) (component key : String) (vs : Items) (v : Value)
    → has_method component key ≡ true
    → adapt a component key (list vs) ≡ ok v
    → AsLong vs v
unfolding adapt
adapt-AsLong a component key vs v m h = run_method-AsLong a component key vs v (rw m at h)

-- A list under a key that the adapters have a method for comes out of a chain, where no adapter
-- raises, as a list with as many items.
pub run_chain-AsLong :
    (chain : List Adapter) (component key : String) (vs : Items) (v : Value)
    → has_method component key ≡ true
    → run_chain chain component key (list vs) ≡ ok v
    → AsLong vs v
unfolding run_chain
run_chain-AsLong [] component key vs v m h = self-AsLong vs v h
run_chain-AsLong (a ∷ chain) component key vs v m h =
    let (v1, e, h1) = >>=-eq-ok (adapt a component key (list vs)) _ h in
    let (vs1, e1, l) = adapt-AsLong a component key vs v1 m e in
    let (vs2, e2, l2) = run_chain-AsLong chain component key vs1 v m (rw e1 at h1) in
    (vs2, e2, l2 ∙ l)
