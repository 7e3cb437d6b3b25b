-- ===== src/Conf.antt =====
-- slurmweb/conf.py: the checks of the values of the configuration.
use slurm_web.Base.{
  ℕ, String, Bool, true, false, Option, none, some, [], ◌∷◌, ◌&&◌, ◌||◌, not, if◌then◌else◌, length,
  eqb, leb, codes, Text, ◌==◌, ◌^^◌,
}
use slurm_web.Py.Error.{configuration_error}
use slurm_web.Py.Result.{Result, ok, raised}

-- [0-9A-Fa-f]
abbrev pub is_hex_digit : ℕ → Bool
is_hex_digit c = (leb 48 c && leb c 57) || (leb 65 c && leb c 70) || (leb 97 c && leb c 102)

unfoldable pub all_hex : Text → Bool
all_hex [] = true
all_hex (c ∷ s) = is_hex_digit c && all_hex s

-- `$` also matches before a line break at the end
unfoldable pub without_newline : Text → Text
without_newline [] = []
without_newline (c ∷ []) = if eqb c 10 then [] else c ∷ []
without_newline (c ∷ d ∷ s) = c ∷ without_newline (d ∷ s)

abbrev is_color_body : Text → Bool
is_color_body body = (eqb (length body) 3 || eqb (length body) 6) && all_hex body

-- HEX_COLOR_RE.match
unfoldable pub is_hex_color : Text → Bool
is_hex_color [] = false
is_hex_color (c ∷ s) = eqb c b'#' && is_color_body (without_newline s)

unfoldable pub validate_hex_color : String → String → Result String
validate_hex_color value parameter_name =
    if is_hex_color (codes value)
    then ok value
    else raised (
        configuration_error
          ("Invalid hexadecimal color for " ^^ (parameter_name ^^ (": " ^^ value))))

-- What a file system says of a path, and what a read of the file gives.
pub data Content : Type 0 where
  text : String → Content
  forbidden : Content
  undecodable : (err : String) → Content

pub record Paths : Type 0 where
  pub exists : String → Bool
  pub is_file : String → Bool
  pub read_text : String → Content

module _ (paths : Paths) where
  unfoldable pub validate_existing_path : String → String → Result (Unit {0})
  validate_existing_path path parameter_name =
      if not (paths.exists path)
      then raised (configuration_error (parameter_name ^^ (" file does not exist: " ^^ path)))
      else if not (paths.is_file path)
      then raised (configuration_error (parameter_name ^^ (" is not a regular file: " ^^ path)))
      else ok tt

  pub secret_of : String → String → Content → Result (Option String)
  secret_of path name (text secret) =
      if secret == ""
      then raised (configuration_error (name ^^ (" loaded from file " ^^ (path ^^ " is empty"))))
      else ok (some secret)
  secret_of path name forbidden =
      raised (configuration_error ("Permission error to access " ^^ (name ^^ (" file " ^^ path))))
  secret_of path name (undecodable err) =
      raised (
        configuration_error
          ("Unable to decode " ^^ (name ^^ (" file " ^^ (path ^^ (": " ^^ err))))))

  pub load_secret_from_file : Option String → String → Result (Option String)
  load_secret_from_file none name = ok none
  load_secret_from_file (some path) name =
      if not (paths.is_file path)
      then raised (configuration_error (name ^^ (" file path " ^^ (path ^^ " is not a file"))))
      else secret_of path name (paths.read_text path)
