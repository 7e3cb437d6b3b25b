-- ===== src/Frontend/Tests.antt =====
-- A configuration with a color, a logo and a prefix.
use slurm_web.Base.{
  String, ◌≡◌, refl, Bool, true, false, Option, none, some, List, [], ◌∷◌, ◌==◌, if◌then◌else◌,
  Dict,
}
use slurm_web.Py.Result.{ok}
use slurm_web.Conf.{Paths, undecodable}
use slurm_web.Frontend.{Settings, runtime_config, check_prefix}

abbrev paths : Paths
paths = record {
  exists = λ path. true;
  is_file = λ path. true;
  read_text = λ path. undecodable "no text";
}

abbrev suffix : String → String
suffix path = ".svg"

abbrev settings : Settings
settings parameter =
    if parameter == "color_main"
    then some "#00aaFF"
    else if parameter == "logo_login"
    then some "/etc/logo.svg"
    else none

abbrev logo_files : Dict String
logo_files = ("logo_login", "brand_login.svg") ∷ []

shown :
    runtime_config settings logo_files "/slurm/"
    ≡ ("COLOR_MAIN", "#00aaFF") ∷ ("LOGO_LOGIN", "/slurm/logo/brand_login.svg") ∷ []
unfolding runtime_config slurm_web.Frontend.add_logos slurm_web.Frontend.add_logo slurm_web.Base.get
    slurm_web.Base.put slurm_web.Frontend.add_colors slurm_web.Frontend.add_color
    slurm_web.Frontend.prefixed_asset_path slurm_web.Frontend.strip_slashes
shown = refl

starts_with_slash : check_prefix "/slurm" ≡ ok tt
unfolding check_prefix
starts_with_slash = refl
