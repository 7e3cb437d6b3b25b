-- ===== src/Slurmrestd/Filtered/Selected.antt =====
-- What the filters leave, and how a job is put together (slurmweb/slurmrestd/__init__.py).
use slurm_web.Base.{
  ℕ, String, ◌≡◌, refl, true, false, none, some, List, [], ◌∷◌, ◌&&◌, not, if◌then◌else◌, Dict,
  elem, get, put, remove, keys, update, get-put, get-remove, eq_iff, arith, sym, is_some, subst,
}
use slurm_web.Py.Value.{
  Value, list, dict, Items, Fields, fields_of, of_fields, items_of, of_items, items_of-of_items,
  fields_of-of_fields,
}
use slurm_web.Py.Result.{Result, ok, >>=-eq-ok, ok-injective}
use slurm_web.Slurmrestd.Adapters.{for_each, each}
use slurm_web.Slurmrestd.Client.{Client, Net}
use slurm_web.Slurmrestd.Filtered.{
  delete_keys, filter_item_fields, filter_fields, update_value, Filters, acctjob, ctldjob, job,
  enrich,
}

get-delete_keys :
    (selection ks : List String) (d : Dict Value) (j : String)
    → get (delete_keys selection ks d) j
      ≡ (if elem j ks && not (elem j selection) then none else get d j)
unfolding delete_keys
get-delete_keys selection [] d j = refl
get-delete_keys selection (k ∷ ks) d j = ground (
  arith,
  get-delete_keys selection ks d j,
  get-delete_keys selection ks (remove d k) j,
  get-remove d k j,
  eq_iff k j,
)

get-keys : (d : Dict Value) (j : String) → elem j (keys d) ≡ false → get d j ≡ none
unfolding get keys
get-keys [] j h = refl
get-keys ((i, v) ∷ d) j h = ground (arith, get-keys d j)

-- The item with the selected fields only: their values are those of the item.
abbrev pub Exposes : List String → Value → Value → Type 0
Exposes selection item item' =
    (fs : Fields) × (fs' : Fields) × (item ≡ dict fs)
    × (item' ≡ dict fs')
    × ((k : String)
        → get (fields_of fs') k ≡ (if elem k selection then get (fields_of fs) k else none))

filter_item_fields-Exposes :
    (selection : List String) (item item' : Value)
    → filter_item_fields selection item ≡ ok item'
    → Exposes selection item item'
unfolding filter_item_fields
filter_item_fields-Exposes selection (dict fs) item' h =
    let d = fields_of fs in
    (
      fs,
      of_fields (delete_keys selection (keys d) d),
      refl,
      sym (ok-injective h),
      λ k.
          rw fields_of-of_fields
            (ground (arith, get-delete_keys selection (keys d) d k, get-keys d k)),
    )
filter_item_fields-Exposes selection Value.null item' h = cc
filter_item_fields-Exposes selection (Value.boolean b) item' h = cc
filter_item_fields-Exposes selection (Value.int n) item' h = cc
filter_item_fields-Exposes selection (Value.str s) item' h = cc
filter_item_fields-Exposes selection (list vs) item' h = cc

-- Two lists of the same length, related item by item.
pub data Pairwise (R : Value → Value → Type 0) : List Value → List Value → Type 0 where
  no_items : Pairwise R [] []
  next :
      {x y : Value} {xs ys : List Value} → R x y → Pairwise R xs ys → Pairwise R (x ∷ xs) (y ∷ ys)

each-Pairwise :
    {R : Value → Value → Type 0} (f : Value → Result Value)
    → ((x y : Value) → f x ≡ ok y → R x y)
    → (vs vs' : List Value) → each f vs ≡ ok vs'
    → Pairwise R vs vs'
unfolding each
each-Pairwise {R} f r [] vs' h = subst (Pairwise R []) (ok-injective h) no_items
each-Pairwise {R} f r (v ∷ vs) vs' h =
    let (v1, e1, h1) = >>=-eq-ok (f v) _ h in
    let (vs1, e2, h2) = >>=-eq-ok (each f vs) _ h1 in
    subst (Pairwise R (v ∷ vs)) (ok-injective h2) (next (r v v1 e1) (each-Pairwise f r vs vs1 e2))

-- Where filtering a list with a selection raises nothing, it gives a list with as many items in the
-- same order, each with exactly those fields of its item that are selected, unchanged.
pub filter_fields-Exposes :
    (selection : List String) (vs : Items) (v : Value)
    → filter_fields (list vs) (some selection) ≡ ok v
    → (vs' : Items) × (v ≡ list vs') × Pairwise (Exposes selection) (items_of vs) (items_of vs')
unfolding filter_fields for_each
filter_fields-Exposes selection vs v h =
    let (vs1, e, h1) = >>=-eq-ok (each (filter_item_fields selection) (items_of vs)) _ h in
    (
      of_items vs1,
      sym (ok-injective h1),
      rw items_of-of_items (
          each-Pairwise (filter_item_fields selection) (filter_item_fields-Exposes selection)
            (items_of vs) vs1 e),
    )

-- The names of an object differ.
abbrev pub IsDistinct : Dict Value → Type 0
IsDistinct [] = Unit
IsDistinct ((k, v) ∷ d) = (get d k ≡ none) × IsDistinct d

get-update :
    (d e : Dict Value) (k : String)
    → IsDistinct e
    → get (update d e) k ≡ (if is_some (get e k) then get e k else get d k)
unfolding update get
get-update d [] k h = refl
get-update d ((j, v) ∷ e) k (h, hs) =
    ground (arith, get-update (put d j v) e k hs, get-put d j k v, eq_iff j k)

module _ {W : Type 0} (net : Net W) (filters : Filters) where
  -- A job that both daemons give as an object, that of slurmctld with distinct names, has the
  -- fields of both, and where they share one, that of slurmctld.
  pub job-merges :
      (job_id : ℕ) (c : Client W) (a b : Fields)
      → (acctjob net filters job_id c).0 ≡ ok (dict a)
      → (ctldjob net filters job_id true (acctjob net filters job_id c).1).0 ≡ ok (dict b)
      → IsDistinct (fields_of b)
      → (r : Fields) × ((job net filters job_id c).0 ≡ ok (dict r))
        × ((k : String)
            → get (fields_of r) k ≡ (
                if is_some (get (fields_of b) k) then get (fields_of b) k else get (fields_of a) k))
  unfolding job enrich update_value
  job-merges job_id c a b ea eb distinct = (
    of_fields (update (fields_of a) (fields_of b)),
    rw (ea, eb) refl,
    λ k. rw fields_of-of_fields (get-update (fields_of a) (fields_of b) k distinct),
  )
