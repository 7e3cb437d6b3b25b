-- ===== src/Slurmrestd/Adapters/Chain.antt =====
-- Which adapters a chain holds (slurmweb/slurmrestd/adapters/__init__.py).
use mathlib.Core.List.{reverse}
use slurm_web.Base.{
  sym, ◌∙◌, leb, ℕ, suc, ◌+◌, ◌-◌, ◌<◌, String, ◌≡◌, refl, false, none, some, List, [], ◌∷◌, ◌++◌,
  eq_refl, arith, length, get_elem?, elem, append_assoc, length-append, ap,
}
use slurm_web.Slurmrestd.Adapters.{
  Adapter, adapter_of, index, chain_from, chain_between, build_adaptation_chain, add_adapter,
}

-- The registered adapters of a row of versions, in order.
pub registered : List String → List Adapter
registered [] = []
registered (v ∷ vs) = elim (adapter_of v) [ none ↦ registered vs | some a ↦ a ∷ registered vs ]

index-append :
    (x : String) (before rest : List String)
    → elem x before ≡ false
    → index x (before ++ x ∷ rest) ≡ some (length before)
unfolding index
index-append x [] rest h = rw (eq_refl x)
index-append x (y ∷ ys) rest h = ground (arith, index-append x ys rest)

get_elem?-append :
    (before rest : List String) (x : String)
    → get_elem? (before ++ x ∷ rest) (length before) ≡ some x
get_elem?-append [] rest x = refl
get_elem?-append (y ∷ ys) rest x = get_elem?-append ys rest x

chain_from-registered :
    (i : ℕ) (before middle after : List String)
    → i ≡ length before
    → chain_from (length middle) i (before ++ (middle ++ after)) ≡ registered middle
unfolding chain_from registered add_adapter
chain_from-registered i before [] after e = refl
chain_from-registered i before (v ∷ vs) after e =
    rw (e, get_elem?-append)
      (ground (
        arith,
        chain_from-registered (suc (length before)) (before ++ v ∷ []) vs after
            (sym (length-append before (v ∷ []) ∙ omega arith)),
        append_assoc before (v ∷ []) (vs ++ after),
      ))

index-append_assoc :
    (x : String) (before middle after : List String)
    → elem x (before ++ middle) ≡ false
    → index x (before ++ (middle ++ x ∷ after)) ≡ some (length before + length middle)
index-append_assoc x before middle after h =
    ap (index x) (sym (append_assoc before middle (x ∷ after)))
    ∙ index-append x (before ++ middle) after h
    ∙ ap some (length-append before middle)

chain_between-registered :
    (i n : ℕ) (before middle after : List String)
    → i ≡ length before
    → n ≡ length middle
    → 0 < n
    → chain_between (some i) (some (i + n)) (before ++ (middle ++ after)) ≡ registered middle
unfolding chain_between
chain_between-registered i n before middle after e m pos =
    let gap : i + n - i ≡ n = omega arith in
    let forth : leb (i + n) i ≡ false = ground arith in
    rw (forth, gap, m) (chain_from-registered i before middle after e)

-- Let the supported versions, in ascending order, read `before`, the version in use, `middle`, the
-- target, `after`, with no earlier occurrence of the two. Then the chain holds the registered
-- adapters of the version in use and of `middle`, in this order, and none of the target's.
pub build_adaptation_chain-registered :
    (before middle after supported : List String) (from to : String)
    → reverse supported ≡ before ++ from ∷ (middle ++ to ∷ after)
    → elem from before ≡ false
    → elem to (before ++ from ∷ middle) ≡ false
    → build_adaptation_chain from to supported ≡ registered (from ∷ middle)
unfolding build_adaptation_chain
build_adaptation_chain-registered before middle after supported from to e f t =
    rw
      (
        e,
        index-append from before (middle ++ to ∷ after) f,
        index-append_assoc to before (from ∷ middle) after t,
      )
      (chain_between-registered (length before) (suc (length middle)) before (from ∷ middle)
        (to ∷ after) refl refl (omega arith))
