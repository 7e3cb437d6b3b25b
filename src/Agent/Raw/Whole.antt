-- ===== src/Agent/Raw/Whole.antt =====
-- The blocks of an output file (slurmweb/views/agent.py).
use slurm_web.Base.{
  ℕ, zero, suc, ◌≤◌, ◌<◌, ◌≡◌, refl, some, List, [], ◌∷◌, ◌++◌, take, drop, length, ap, ◌∙◌, arith,
  All, take-append-drop, length-take-le,
}
use slurm_web.Agent.Logs.Polling.{length-drop}
use slurm_web.Agent.Raw.{blocks}

abbrev pub concat : List (List ℕ) → List ℕ
concat [] = []
concat (xs ∷ xss) = xs ++ concat xss

abbrev pub IsBlock : List ℕ → Type 0
IsBlock block = (0 < length block) × (length block ≤ 65536)

-- With more turns than there are bytes, the loop ends. Its blocks are the whole file, none of them
-- empty or longer than 65536 bytes.
pub blocks-whole :
    (n : ℕ) (content : List ℕ)
    → length content < n
    → (found : List (List ℕ)) × (blocks n content ≡ some found)
      × (concat found ≡ content)
      × All IsBlock found
unfolding blocks
blocks-whole zero content h = absurd (omega (arith, h))
blocks-whole (suc n) [] h = ([], refl, refl, tt)
blocks-whole (suc n) (b ∷ content) h =
    let (rest, e, c, a) =
      blocks-whole n (drop 65535 content) (omega (arith, h, length-drop 65535 content)) in
    (
      (b ∷ take 65535 content) ∷ rest,
      rw e refl,
      ap (◌∷◌ b) (ap (λ xs. take 65535 content ++ xs) c ∙ take-append-drop 65535 content),
      ((omega arith, omega (arith, length-take-le 65535 content)), a),
    )
