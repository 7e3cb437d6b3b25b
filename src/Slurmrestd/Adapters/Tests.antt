-- ===== src/Slurmrestd/Adapters/Tests.antt =====
-- Chains of adapters and what they do to a few values.

use slurm_web.Base.{
  ◌==◌, if◌then◌else◌, ℕ, String, ◌≡◌, refl, Bool, true, false, Option, none, some, List, [], ◌∷◌,
  ◌++◌, elem, length, get,
}
use slurm_web.Py.Value.{
  Value, Fields, Items, null, str, int, list, dict, cons, nil, field, end, fields_of, items_of,
}
use slurm_web.Py.Result.{ok}
use slurm_web.Slurmrestd.Adapters.{
  Adapter, v0_0_41, v0_0_42, v0_0_43, build_adaptation_chain, run_chain, adapt_job,
}
use slurm_web.Slurmrestd.Adapters.Chain.{registered, build_adaptation_chain-registered}

abbrev supported : List String
supported = "0.0.44" ∷ "0.0.43" ∷ "0.0.42" ∷ "0.0.41" ∷ []

build_adaptation_chain-registered_example :
    build_adaptation_chain "0.0.42" "0.0.44" supported ≡ registered ("0.0.42" ∷ "0.0.43" ∷ [])
build_adaptation_chain-registered_example =
    build_adaptation_chain-registered ("0.0.41" ∷ []) ("0.0.43" ∷ []) [] supported "0.0.42" "0.0.44"
      refl refl refl

unsupported : build_adaptation_chain "0.0.40" "0.0.44" supported ≡ []
unfolding build_adaptation_chain
unsupported = refl

abbrev job : Fields
job =
    field "standard_error" (str "e")
      (field "standard_input" (str "i") (field "standard_output" (str "o") end))

abbrev adapted : Fields
adapted = field "standard_error" (str "e") (
    field "standard_input" (str "i") (
      field "standard_output" (str "o") (
        field "stderr_expanded" (str "e")
          (field "stdin_expanded" (str "i") (field "stdout_expanded" (str "o") end)))))

adapted_job : adapt_job (dict job) ≡ ok (dict adapted)
unfolding adapt_job slurm_web.Slurmrestd.Adapters.copy_field slurm_web.Py.Ops.getitem get fields_of
    slurm_web.Py.Ops.setitem slurm_web.Py.Value.of_fields slurm_web.Base.put
adapted_job = refl
