-- ===== src/Gateway/Login.antt =====
-- slurmweb/views/auth: the logins of the gateway, anonymous, with LDAP and with OIDC. The
-- authentication itself and the making of tokens are in RFL.
pub mod Once
pub mod Tests
use slurm_web.Base.{
  String, Bool, true, false, Option, none, some, List, ◌==◌, ◌⊎◌, inl, inr, not, if◌then◌else◌,
  ◌^^◌,
}
use slurm_web.Py.Value.{Value}
use slurm_web.Py.Error.{http_error}
use slurm_web.Py.Result.{Result, ok, raised}
use slurm_web.Py.Ops.{getitem}
use slurm_web.Py.Exec.{Exec, lift, pure, raise, gets, modify, choose, ◌>>=◌, ◌>>◌}

-- A user of RFL.
pub record Account : Type 0 where
  pub login : Value
  pub fullname : Value
  pub groups : Value

-- session["oidc_login"]
pub record LoginData : Type 0 where
  pub token : String
  pub account : Account

-- What a login answers, without the account of an anonymous user.
pub record Granted : Type 0 where
  pub result : String
  pub token : String
  pub account : Option Account

-- The settings, the authentifier and the tokens. What comes from the left is the text of an
-- LDAPAuthenticationError or of an OIDCAuthenticationError.
pub record Env (W : Type 0) : Type 0 where
  pub enabled : Bool
  pub method : String
  pub prefix : String
  pub anonymous_user : Account
  pub ldap_login : Value → Value → Exec W (String ⊎ Account)
  pub oidc_redirect : Exec W (String ⊎ String)
  pub oidc_authenticate : Exec W (String ⊎ Account)
  pub generate : Account → Exec W String

-- The session of a browser, in the world.
pub record Visit (W : Type 0) : Type 0 where
  pub session : Option LoginData
  pub world : W

-- the handlers of the authentication errors
abbrev pub authenticated : {A : Type 0} → String ⊎ A → Result A
authenticated (inl err) = raised (http_error 401 err)
authenticated (inr a) = ok a

module _ {W : Type 0} (env : Env W) where
  abbrev pub outside : {A : Type 0} → Exec W A → Exec (Visit W) A
  outside m v = ((m v.world).0, record v { world = (m v.world).1 })

  -- anonymous
  unfoldable pub anonymous : Exec (Visit W) Granted
  anonymous = choose env.enabled (raise (http_error 401 "Unauthorized anonymous access")) (do
    token ← outside (env.generate env.anonymous_user)
    pure (record { result = "Successful anonymous access"; token = token; account = none }))

  -- the warning names the user before the request is refused
  abbrev pub refuse : Value → Exec (Visit W) Granted
  refuse idents = do
    user ← lift (getitem idents "user")
    raise (http_error 500 "Unable to authenticate")

  abbrev pub ldap : Value → Exec (Visit W) Granted
  ldap idents = do
    name ← lift (getitem idents "user")
    password ← lift (getitem idents "password")
    outcome ← outside (env.ldap_login name password)
    user ← lift (authenticated outcome)
    token ← outside (env.generate user)
    pure (record { result = "Authentication successful"; token = token; account = some user })

  -- login, on the parsed data of the request
  unfoldable pub login : Value → Exec (Visit W) Granted
  login idents =
      choose env.enabled
        (choose (env.method == "ldap") (ldap idents)
          (raise (http_error 501 "LDAP authentication is not enabled")))
        (refuse idents)

  -- the guards of the three views of OIDC
  abbrev pub oidc_enabled : {A : Type 0} → Exec (Visit W) A → Exec (Visit W) A
  oidc_enabled view =
      choose env.enabled
        (choose (env.method == "oidc") view
          (raise (http_error 501 "OIDC authentication is not enabled")))
        (raise (http_error 500 "Unable to authenticate with OIDC, authentication is disabled"))

  -- oidc_login
  unfoldable pub oidc_login : Exec (Visit W) String
  oidc_login = oidc_enabled (do outcome ← outside env.oidc_redirect; lift (authenticated outcome))

  abbrev pub keep_login : Exec (Visit W) String
  keep_login = do
    outcome ← outside env.oidc_authenticate
    user ← lift (authenticated outcome)
    token ← outside (env.generate user)
    modify (λ v. record v { session = some (record { token = token; account = user }) })
    pure (env.prefix ^^ "/auth/oidc/callback")

  -- oidc_callback, with the URL that it redirects to
  unfoldable pub oidc_callback : Exec (Visit W) String
  oidc_callback = oidc_enabled keep_login

  abbrev pub hand_out : Option LoginData → Exec (Visit W) Granted
  hand_out none = raise (http_error 401 "OIDC login session not found")
  hand_out (some data') = pure (record {
    result = "Authentication successful";
    token = data'.token;
    account = some data'.account;
  })

  -- oidc_session; the entry is popped
  unfoldable pub oidc_session : Exec (Visit W) Granted
  oidc_session = oidc_enabled (do
    login_data ← gets (λ v. v.session)
    modify (λ v. record v { session = none })
    hand_out login_data)
