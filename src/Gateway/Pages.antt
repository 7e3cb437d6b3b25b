-- ===== src/Gateway/Pages.antt =====
-- slurmweb/views/gateway.py: the views that answer without an agent, and the prefix of the user
-- interface of slurmweb/apps/gateway.py.
use slurm_web.Base.{String, Option, none, some, List, [], ◌∷◌, ◌==◌, ◌||◌, if◌then◌else◌, ◌^^◌}
use slurm_web.Py.Value.{Value}
use slurm_web.Py.Error.{http_error}
use slurm_web.Py.Result.{Result, ok, raised}
use slurm_web.Live.{begins}
use slurm_web.Gateway.Login.{Account}
use slurm_web.Frontend.{strip_slashes}

-- What users() gives of a user.
pub record UserEntry : Type 0 where
  pub login : Value
  pub fullname : Value

pub entries : List Account → List UserEntry
entries [] = []
entries (a ∷ accounts) = record { login = a.login; fullname = a.fullname } ∷ entries accounts

-- users, with the users of the authentifier if there is one
pub users : Option (List Account) → Result (List UserEntry)
users none = raised (http_error 501 "Unable to retrieve users when authentication is disabled")
users (some accounts) = ok (entries accounts)

-- What the login message comes to: the HTML of the Markdown file, or an exception of its reading.
pub data Rendered : Type 0 where
  html : String → Rendered
  missing forbidden : Rendered

-- message_login, on the path of the file and the template with its rendering, if it is found
pub message_login : String → String → Rendered → (String → Option String) → Result String
message_login path template missing render =
    raised (http_error 404 "login service message not found")
message_login path template forbidden render =
    raised (http_error 500 ("Permission error on login service markdown file " ^^ path))
message_login path template (html message) render = elim (render message) [
  | none ↦ raised (http_error 500 ("message template " ^^ (template ^^ " not found")))
  | some page ↦ ok page
]

-- ui_files: the file that is sent for a name
pub ui_files : String → String
ui_files name =
    if name == "favicon.ico"
      || (name == "config.json")
      || begins "assets/" name
      || begins "logo/" name
    then name
    else "index.html"

-- _infer_ui_prefix, on the path of ui.host
pub infer_ui_prefix : Option String → String
infer_ui_prefix none = ""
infer_ui_prefix (some path) = strip_slashes path
