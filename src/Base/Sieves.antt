-- ===== src/Base/Sieves.antt =====
-- What a filter leaves: the relation between a list and the items of it that were kept.
use mathlib.Core.List.{List, [], ◌∷◌}
use mathlib.Core.Path.{◌≡◌, refl}
use mathlib.Core.Bool.{Bool, true, false}
use slurm_web.Base.Tests.{if◌then◌else◌}
use slurm_web.Base.Lists.{keep}

-- `Sieve Keep Drop xs ys`: `xs` are the items of `ys` that satisfy `Keep`, in the same order and as
-- often; the others satisfy `Drop`.
pub data Sieve {A : Type 0} (Keep Drop : A → Type 0) : List A → List A → Type 0 where
  done : Sieve Keep Drop [] []
  kept :
      {x : A} {xs ys : List A} → Keep x → Sieve Keep Drop xs ys → Sieve Keep Drop (x ∷ xs) (x ∷ ys)
  dropped : {x : A} {xs ys : List A} → Drop x → Sieve Keep Drop xs ys → Sieve Keep Drop xs (x ∷ ys)

pub Sieve-step :
    {A : Type 0} {Keep Drop : A → Type 0} (b : Bool) {x : A} {xs ys : List A}
    → (b ≡ true → Keep x)
    → (b ≡ false → Drop x)
    → Sieve Keep Drop xs ys
    → Sieve Keep Drop (if b then x ∷ xs else xs) (x ∷ ys)
Sieve-step true k d s = kept (k refl) s
Sieve-step false k d s = dropped (d refl) s

-- The filter by a Boolean test.
pub keep-Sieve :
    {A : Type 0} (p : A → Bool) (ys : List A)
    → Sieve (λ x. p x ≡ true) (λ x. p x ≡ false) (keep p ys) ys
keep-Sieve p [] = done
keep-Sieve p (y ∷ ys) = Sieve-step (p y) (λ e. e) (λ e. e) (keep-Sieve p ys)
