-- ===== src/Gateway/Versions/Order.antt =====
-- Versions of numbers are ordered (slurmweb/apps/gateway.py).
use slurm_web.Base.{String, ◌≡◌, refl, true, List, [], ◌∷◌, ◌∷◌, ◌||◌, arith, ℤ, map, ap, same_iff}
use slurm_web.Gateway.Versions.{
  Part, number, word, same_part, le_part, compare_versions, version_tuple, version_greater_or_equal,
}

abbrev pub numbers : List ℤ → List Part
numbers ns = map number ns

compare_refl : (xs : List Part) → compare_versions xs xs ≡ true
unfolding compare_versions same_part
compare_refl [] = refl
compare_refl (number n ∷ xs) = ground (arith, compare_refl xs)
compare_refl (word t ∷ xs) = ground (arith, compare_refl xs, same_iff t t)

compare_total :
    (xs ys : List ℤ)
    → compare_versions (numbers xs) (numbers ys) || compare_versions (numbers ys) (numbers xs)
      ≡ true
unfolding compare_versions same_part le_part
compare_total [] ys = refl
compare_total (a ∷ xs) [] = refl
compare_total (a ∷ xs) (b ∷ ys) = ground (arith, compare_total xs ys)

compare_antisym :
    (xs ys : List ℤ)
    → compare_versions (numbers xs) (numbers ys) ≡ true
    → compare_versions (numbers ys) (numbers xs) ≡ true
    → xs ≡ ys
unfolding compare_versions same_part le_part
compare_antisym [] [] h k = refl
compare_antisym [] (b ∷ ys) h k = cc
compare_antisym (a ∷ xs) [] h k = cc
compare_antisym (a ∷ xs) (b ∷ ys) h k = ground (arith, compare_antisym xs ys)

compare_trans :
    (xs ys zs : List ℤ)
    → compare_versions (numbers xs) (numbers ys) ≡ true
    → compare_versions (numbers ys) (numbers zs) ≡ true
    → compare_versions (numbers xs) (numbers zs) ≡ true
unfolding compare_versions same_part le_part
compare_trans [] ys zs h k = refl
compare_trans (a ∷ xs) [] zs h k = cc
compare_trans (a ∷ xs) (b ∷ ys) [] h k = cc
compare_trans (a ∷ xs) (b ∷ ys) (c ∷ zs) h k = ground (arith, compare_trans xs ys zs)

-- A version of numbers, such as 6.1.0.
abbrev pub IsNumbers : String → Type 0
IsNumbers v = (ns : List ℤ) × (version_tuple v ≡ numbers ns)

-- The comparison orders the versions that consist of numbers: each is at least itself, of two one
-- is at least the other, two that are at least each other have the same parts, and the order is
-- transitive.
pub version_greater_or_equal-order :
    (a b c : String)
    → IsNumbers a
    → IsNumbers b
    → IsNumbers c
    → (version_greater_or_equal a a ≡ true)
      × (version_greater_or_equal a b || version_greater_or_equal b a ≡ true)
      × (version_greater_or_equal a b ≡ true
          → version_greater_or_equal b a ≡ true
          → version_tuple a ≡ version_tuple b)
      × (version_greater_or_equal a b ≡ true
          → version_greater_or_equal b c ≡ true
          → version_greater_or_equal a c ≡ true)
unfolding version_greater_or_equal
version_greater_or_equal-order a b c (xs, e) (ys, f) (zs, g) =
    rw (e, f, g)
      (
        compare_refl (numbers xs),
        compare_total xs ys,
        λ h k. ap numbers (compare_antisym xs ys h k),
        compare_trans xs ys zs,
      )
