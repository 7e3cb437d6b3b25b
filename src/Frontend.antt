-- ===== src/Frontend.antt =====
-- slurmweb/ui.py: the branding of the user interface and its assets.
pub mod Colors
pub mod Assets
pub mod Tests
use slurm_web.Base.{
  ℕ, String, Bool, true, false, Option, none, some, List, [], ◌∷◌, ◌==◌, ◌&&◌, ◌||◌, not, codes,
  starts_with, if◌then◌else◌, Dict, get, put, ◌^^◌, lower, eqb,
}
use Prim.Native.String.{[] as nil_str, ◌∷◌ as cons_str}
use Prim.Native.Char.{code}
use slurm_web.Py.Error.{configuration_error, runtime_error}
use slurm_web.Py.Result.{Result, ok, raised, ◌>>=◌}
use slurm_web.Conf.{Paths, validate_hex_color, validate_existing_path}

-- COLOR_PARAMETERS and LOGO_PARAMETERS
abbrev pub color_parameters : Dict String
color_parameters =
    ("color_light", "COLOR_LIGHT")
    ∷ ("color_main", "COLOR_MAIN")
    ∷ ("color_darker", "COLOR_DARKER")
    ∷ ("color_dark", "COLOR_DARK")
    ∷ ("color_verydark", "COLOR_VERYDARK")
    ∷ ("color_font_disabled", "COLOR_FONT_DISABLED")
    ∷ []

pub record Logo : Type 0 where
  pub parameter : String
  pub json_key : String
  pub dest_base : String

abbrev logo : String → String → String → Logo
logo parameter json_key dest_base = record {
  parameter = parameter;
  json_key = json_key;
  dest_base = dest_base;
}

abbrev pub logo_parameters : List Logo
logo_parameters =
    logo "logo_login" "LOGO_LOGIN" "brand_login"
    ∷ logo "logo_login_dark" "LOGO_LOGIN_DARK" "brand_login_dark"
    ∷ logo "logo_horizontal" "LOGO_HORIZONTAL" "brand_horizontal"
    ∷ logo "logo_horizontal_dark" "LOGO_HORIZONTAL_DARK" "brand_horizontal_dark"
    ∷ []

-- getattr(self._settings, parameter, None)
abbrev pub Settings : Type 0
Settings = String → Option String

-- _env_truthy, on the value of the variable
pub env_truthy : String → Bool
env_truthy value = let v = lower value in v == "1" || (v == "true") || (v == "yes")

-- s.rstrip("/")
pub strip_slashes : String → String
strip_slashes nil_str = nil_str
strip_slashes (cons_str c s) =
    let rest = strip_slashes s in
    if rest == ""
    then (if eqb (code c) b'/' then nil_str else cons_str c nil_str)
    else cons_str c rest

-- _prefixed_asset_path
pub prefixed_asset_path : String → String → String
prefixed_asset_path prefix asset_path =
    if prefix == "" || (prefix == "/")
    then "/" ^^ asset_path
    else strip_slashes prefix ^^ ("/" ^^ asset_path)

-- the loop of validate over the colors, which are checked if they are set
pub validate_color : Option String → String → Result (Unit {0})
validate_color none parameter = ok tt
validate_color (some value) parameter = validate_hex_color value ("ui." ^^ parameter) >>= λ v. ok tt

pub validate_colors : Settings → Dict String → Result (Unit {0})
validate_colors settings [] = ok tt
validate_colors settings ((parameter, key) ∷ colors) =
    validate_color (settings parameter) parameter >>= λ _. validate_colors settings colors

-- `suffix` is that of pathlib
module _ (paths : Paths) (suffix : String → String) (settings : Settings) where
  pub validate_logo : Option String → String → Result (Unit {0})
  validate_logo none parameter = ok tt
  validate_logo (some path) parameter = validate_existing_path paths path ("ui." ^^ parameter)

  pub validate_logos : List Logo → Result (Unit {0})
  validate_logos [] = ok tt
  validate_logos (l ∷ logos) =
      validate_logo (settings l.parameter) l.parameter >>= λ _. validate_logos logos

  pub validate_favicon : Option String → Result (Unit {0})
  validate_favicon none = ok tt
  validate_favicon (some favicon) = validate_existing_path paths favicon "ui.favicon" >>= λ _.
      (if lower (suffix favicon) == ".ico"
        then ok tt
        else raised (configuration_error ("ui.favicon must be a .ico file, got: " ^^ favicon)))

  -- validate
  pub validate : Result (Unit {0})
  validate = validate_colors settings color_parameters >>= λ _.
      validate_logos logo_parameters >>= λ _. validate_favicon (settings "favicon")

-- The loops of runtime_config. `logo_files` holds the logos that were copied.
pub add_color : Option String → String → Dict String → Dict String
add_color none key config = config
add_color (some value) key config = put config key value

pub add_colors : Settings → Dict String → Dict String → Dict String
add_colors settings config [] = config
add_colors settings config ((parameter, key) ∷ colors) =
    add_colors settings (add_color (settings parameter) key config) colors

pub add_logo : String → Option String → String → Dict String → Dict String
add_logo prefix none key config = config
add_logo prefix (some name) key config =
    put config key (prefixed_asset_path prefix ("logo/" ^^ name))

pub add_logos : String → Dict String → Dict String → List Logo → Dict String
add_logos prefix logo_files config [] = config
add_logos prefix logo_files config (l ∷ logos) =
    add_logos prefix logo_files (add_logo prefix (get logo_files l.parameter) l.json_key config)
      logos

abbrev pub add_alt : Option String → Dict String → Dict String
add_alt none config = config
add_alt (some alt) config = put config "LOGO_ALT" alt

-- runtime_config
pub runtime_config : Settings → Dict String → String → Dict String
runtime_config settings logo_files prefix =
    add_alt (settings "logo_alt")
      (add_logos prefix logo_files (add_colors settings [] color_parameters) logo_parameters)

-- the first test of prepare_assets
pub check_prefix : String → Result (Unit {0})
check_prefix prefix =
    if not (prefix == "") && not (starts_with (codes "/") (codes prefix))
    then raised
        (runtime_error ("UI prefix '" ^^ (prefix ^^ "' must start with a slash or be empty")))
    else ok tt
