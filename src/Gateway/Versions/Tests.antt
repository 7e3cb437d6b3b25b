-- ===== src/Gateway/Versions/Tests.antt =====
-- A few versions.
use slurm_web.Base.{ℕ, String, ◌≡◌, refl, Bool, true, false, List, [], ◌∷◌, ◌||◌, ℤ, pos}
use slurm_web.Gateway.Versions.{version_tuple, version_greater_or_equal}
use slurm_web.Gateway.Versions.Order.{IsNumbers, version_greater_or_equal-order}

v5_2_0 : IsNumbers "5.2.0"
unfolding version_tuple slurm_web.Base.split slurm_web.Gateway.Versions.int_or_str
    slurm_web.Base.parse_int
v5_2_0 = (pos 5 ∷ pos 2 ∷ pos 0 ∷ [], refl)

v6_0 : IsNumbers "6.0"
unfolding version_tuple slurm_web.Base.split slurm_web.Gateway.Versions.int_or_str
    slurm_web.Base.parse_int
v6_0 = (pos 6 ∷ pos 0 ∷ [], refl)

v10_0_0 : IsNumbers "10.0.0"
unfolding version_tuple slurm_web.Base.split slurm_web.Gateway.Versions.int_or_str
    slurm_web.Base.parse_int
v10_0_0 = (pos 10 ∷ pos 0 ∷ pos 0 ∷ [], refl)

version_greater_or_equal-order_example :
    (version_greater_or_equal "5.2.0" "5.2.0" ≡ true)
    × (version_greater_or_equal "5.2.0" "6.0" || version_greater_or_equal "6.0" "5.2.0" ≡ true)
    × (version_greater_or_equal "5.2.0" "6.0" ≡ true
        → version_greater_or_equal "6.0" "5.2.0" ≡ true
        → version_tuple "5.2.0" ≡ version_tuple "6.0")
    × (version_greater_or_equal "5.2.0" "6.0" ≡ true
        → version_greater_or_equal "6.0" "10.0.0" ≡ true
        → version_greater_or_equal "5.2.0" "10.0.0" ≡ true)
version_greater_or_equal-order_example =
    version_greater_or_equal-order "5.2.0" "6.0" "10.0.0" v5_2_0 v6_0 v10_0_0

-- numbers are no texts: ten comes after nine
ten : version_greater_or_equal "9.0.0" "10.0.0" ≡ true
unfolding version_greater_or_equal slurm_web.Gateway.Versions.compare_versions version_tuple
    slurm_web.Base.split slurm_web.Gateway.Versions.same_part slurm_web.Gateway.Versions.int_or_str
    slurm_web.Base.parse_int slurm_web.Gateway.Versions.le_part
ten = refl

-- a shorter version comes before what it begins
shorter : version_greater_or_equal "6.0.0" "6.0" ≡ false
unfolding version_greater_or_equal slurm_web.Gateway.Versions.compare_versions version_tuple
    slurm_web.Base.split slurm_web.Gateway.Versions.same_part slurm_web.Gateway.Versions.int_or_str
    slurm_web.Base.parse_int
shorter = refl
