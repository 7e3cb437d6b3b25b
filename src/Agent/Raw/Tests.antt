-- ===== src/Agent/Raw/Tests.antt =====
-- A file of three bytes.
use slurm_web.Base.{ℕ, ◌≡◌, refl, some, List, [], ◌∷◌, All, arith}
use slurm_web.Agent.Raw.{blocks}
use slurm_web.Agent.Raw.Whole.{concat, IsBlock, blocks-whole}

one_block : blocks 4 (1 ∷ 2 ∷ 3 ∷ []) ≡ some ((1 ∷ 2 ∷ 3 ∷ []) ∷ [])
unfolding blocks
one_block = refl

blocks-whole_example :
    (found : List (List ℕ)) × (blocks 4 (1 ∷ 2 ∷ 3 ∷ []) ≡ some found)
    × (concat found ≡ 1 ∷ 2 ∷ 3 ∷ [])
    × All IsBlock found
blocks-whole_example = blocks-whole 4 (1 ∷ 2 ∷ 3 ∷ []) (omega arith)
