-- ===== src/Gateway/Versions.antt =====
-- slurmweb/apps/gateway.py, version_greater_or_equal: the order of versions.
pub mod Order
pub mod Tests
use slurm_web.Base.{
  ℕ, zero, suc, ◌+◌, String, ◌≡◌, Bool, true, false, Option, none, some, List, [], ◌∷◌, ◌&&◌, not,
  if◌then◌else◌, Text, codes, same, split, parse_int, ℤ, pos, negsuc, eqb_ℤ, ltb_ℤ, eqb, ltb, show,
  map,
}

-- A part of a version: what int() takes, and what it does not.
pub data Part : Type 0 where
  number : ℤ → Part
  word : Text → Part

unfoldable pub int_or_str : Text → Part
int_or_str part = elim (parse_int part) [ none ↦ word part | some n ↦ number n ]

unfoldable pub version_tuple : String → List Part
version_tuple version = map int_or_str (split b'.' (codes version))

-- str(part)
unfoldable pub text_of : Part → Text
text_of (word t) = t
text_of (number (pos n)) = codes (show n)
text_of (number (negsuc n)) = b'-' ∷ codes (show (suc n))

-- reference == version, on parts: a number is no text
unfoldable pub same_part : Part → Part → Bool
same_part (number m) (number n) = eqb_ℤ m n
same_part (word s) (word t) = same s t
same_part a b = false

-- s <= t, by code points
unfoldable pub le_text : Text → Text → Bool
le_text [] t = true
le_text (c ∷ s) [] = false
le_text (c ∷ s) (d ∷ t) = if eqb c d then le_text s t else ltb c d

-- the two parts that differ
unfoldable pub le_part : Part → Part → Bool
le_part (number m) (number n) = not (ltb_ℤ n m)
le_part a b = le_text (text_of a) (text_of b)

-- compare(): the loop over the identical parts, and what follows it
unfoldable pub compare_versions : List Part → List Part → Bool
compare_versions [] version = true
compare_versions (r ∷ reference) [] = false
compare_versions (r ∷ reference) (v ∷ version) =
    if same_part r v then compare_versions reference version else le_part r v

unfoldable pub version_greater_or_equal : String → String → Bool
version_greater_or_equal reference version =
    compare_versions (version_tuple reference) (version_tuple version)
