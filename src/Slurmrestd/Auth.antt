-- ===== src/Slurmrestd/Auth.antt =====
-- slurmweb/slurmrestd/auth.py: the tokens that authenticate the agent on slurmrestd.
pub mod Lifetime
pub mod Tests
use slurm_web.Base.{
  ℕ, String, ◌≡◌, ◌≤◌, refl, Bool, true, false, Option, none, some, List, [], ◌∷◌, Dict, ◌==◌,
  if◌then◌else◌, ltb_ℤ, ℤ, pos, ◌+ℤ◌, ◌-ℤ◌,
}
use slurm_web.Py.Error.{Exn, configuration_error, attribute_error}
use slurm_web.Py.Result.{Result, ok, raised}
use slurm_web.Py.Exec.{Exec, lift, pure, raise, gets, modify, ◌>>=◌, ◌>>◌}

-- What the class takes from the system clock and from RFL's JWT modules. `W` is the state of the
-- world outside the program. The lifespan is in seconds: the source divides it by a day's seconds
-- for a library that counts in days.
pub record Tokens (W : Type 0) : Type 0 where
  -- int(time.time()), and the world after it
  pub clock : W → ℕ
  pub tick : W → W
  -- JWTBaseManager.generate(duration, {"sun": user})
  pub generate : (lifespan : ℕ) (user : String) → W → Result String × W
  -- jwt_validate_expiration(token)["exp"]: `none` is the JWTDecodeError
  pub expiration_of : String → W → Option ℤ
  -- JWTPrivateKeyFileLoader: false is the JWTPrivateKeyLoaderError
  pub key_loads : String → W → Bool

pub record Authentifier : Type 0 where
  pub method : String
  pub jwt_mode : String
  pub jwt_user : String
  pub jwt_key : String
  pub jwt_lifespan : ℕ
  pub jwt_token : Option String
  -- the attribute is set with the first token
  pub expiration : Option ℤ
  pub has_manager : Bool

-- `not token`
abbrev pub missing : Option String → Bool
missing none = true
missing (some t) = t == ""

abbrev pub text_of : Option String → String
text_of none = ""
text_of (some t) = t

module _ {W : Type 0} (env : Tokens W) where
  open env use {clock, tick, generate, expiration_of, key_loads}

  -- __init__
  unfoldable pub init :
      (method jwt_mode jwt_user jwt_key : String) (jwt_lifespan : ℕ) (jwt_token : Option String)
      → W
      → Result Authentifier
  init method jwt_mode jwt_user jwt_key jwt_lifespan jwt_token w =
      let bare : Authentifier = record {
        method = method;
        jwt_mode = jwt_mode;
        jwt_user = jwt_user;
        jwt_key = jwt_key;
        jwt_lifespan = jwt_lifespan;
        jwt_token = none;
        expiration = none;
        has_manager = false;
      } in
      if method == "local"
      then ok bare
      else if jwt_mode == "static"
      then (if missing jwt_token
          then raised (
              configuration_error
                "Missing token in configuration for slurmrestd jwt authentication in static mode")
          else elim (expiration_of (text_of jwt_token) w) [
            | none ↦ raised (configuration_error "Invalid slurmrestd JWT")
            | some exp ↦ ok (record bare { jwt_token = jwt_token; expiration = some exp })
          ])
      else if key_loads jwt_key w
      then ok (record bare { has_manager = true })
      else raised (configuration_error "Unable to load JWT key for slurmrestd authentication")

  abbrev pub now : Exec (Authentifier × W) ℕ
  now (a, w) = (ok (clock w), (a, tick w))

  -- self.jwt_manager.generate, an attribute error where the manager is None
  unfoldable pub manager_generate : Exec (Authentifier × W) String
  manager_generate (a, w) =
      if a.has_manager
      then (let (r, w') = generate a.jwt_lifespan a.jwt_user w in (r, (a, w')))
      else (raised attribute_error, (a, w))

  -- _generate_token, with the assignment of its result to self.jwt_token
  unfoldable pub renew : Exec (Authentifier × W) Unit
  unfolding manager_generate
  renew = do
    t ← now
    modify (λ (a, w). (record a { expiration = some (pos t +ℤ pos a.jwt_lifespan) }, w))
    token ← manager_generate
    modify (λ (a, w). (record a { jwt_token = some token }, w))

  -- self.expiration - int(time.time())
  unfoldable pub read_gap : Exec (Authentifier × W) ℤ
  read_gap (a, w) = elim a.expiration [
    | none ↦ (raised attribute_error, (a, w))
    | some exp ↦ (ok (exp -ℤ pos (clock w)), (a, tick w))
  ]

  abbrev renew_if : Bool → Exec (Authentifier × W) Unit
  renew_if true = renew
  renew_if false = pure tt

  -- `if gap < 60`
  unfoldable pub renew_late : Exec (Authentifier × W) Unit
  unfolding renew read_gap
  renew_late = do gap ← read_gap; renew_if (ltb_ℤ gap (pos 60))

  -- The renewal of headers() in auto mode.
  unfoldable pub refresh : Exec (Authentifier × W) Unit
  unfolding renew_late
  refresh = do without ← gets (λ s. missing s.0.jwt_token); renew_if without; renew_late

  abbrev pub token_headers : Authentifier × W → Dict (Option String)
  token_headers (a, w) =
      ("X-SLURM-USER-NAME", some a.jwt_user) ∷ ("X-SLURM-USER-TOKEN", a.jwt_token) ∷ []

  -- In static mode the gap decides only what is logged.
  abbrev maintain : Bool → Exec (Authentifier × W) Unit
  maintain true = do gap ← read_gap; pure tt
  maintain false = refresh

  abbrev headers_for : Bool → Bool → Exec (Authentifier × W) (Dict (Option String))
  headers_for true static = pure []
  headers_for false static = do maintain static; gets token_headers

  unfoldable pub headers : Exec (Authentifier × W) (Dict (Option String))
  unfolding refresh
  headers s = headers_for (s.0.method == "local") (s.0.jwt_mode == "static") s
