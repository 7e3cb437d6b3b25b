-- ===== src/Frontend/Colors.antt =====
-- The colors that the frontend gets (slurmweb/ui.py, slurmweb/conf.py).
use slurm_web.Base.{String, ◌≡◌, Bool, true, false, List, ◌==◌, ◌||◌, not, Dict, All, any, codes}
use slurm_web.Conf.{is_hex_color}
use slurm_web.Frontend.{color_parameters, Logo}

-- The keys of colors, and the test of an entry under such a key.
abbrev pub is_color : String → Bool
is_color key = any (λ ((parameter, k) : String × String). k == key) color_parameters

abbrev pub is_valid : String × String → Bool
is_valid (key, value) = not (is_color key) || is_hex_color (codes value)

abbrev pub AllValid : Dict String → Type 0
AllValid = All (λ entry. is_valid entry ≡ true)

-- The keys of the logos are none of a color.
abbrev NoColors : List Logo → Type 0
NoColors = All (λ l. is_color l.json_key ≡ false)
