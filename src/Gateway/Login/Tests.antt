-- ===== src/Gateway/Login/Tests.antt =====
-- A provider that knows one user.
use slurm_web.Base.{ℕ, ◌+◌, String, ◌≡◌, refl, true, none, inl, inr}
use slurm_web.Py.Value.{str, list, nil, dict, end}
use slurm_web.Py.Error.{http_error}
use slurm_web.Py.Result.{ok, raised}
use slurm_web.Py.Exec.{pure}
use slurm_web.Gateway.Login.{Account, Env, Visit, anonymous, login, oidc_callback, oidc_session}
use slurm_web.Gateway.Login.Once.{granted, oidc_callback-once}

abbrev marie : Account
marie = record { login = str "marie"; fullname = str "Marie"; groups = list nil }

-- the world counts the tokens
abbrev env : Env ℕ
env = record {
  enabled = true;
  method = "oidc";
  prefix = "/slurm";
  anonymous_user = marie;
  ldap_login = λ user password. pure (inl "no such user");
  oidc_redirect = pure (inr "https://provider");
  oidc_authenticate = pure (inr marie);
  generate = λ user n. (ok "abc", n + 1);
}

abbrev start : Visit ℕ
start = record { session = none; world = 0 }

refused : (anonymous env start).0 ≡ raised (http_error 401 "Unauthorized anonymous access")
unfolding anonymous
refused = refl

not_ldap :
    (login env (dict end) start).0 ≡ raised (http_error 501 "LDAP authentication is not enabled")
unfolding login
not_ldap = refl

redirects : (oidc_callback env start).0 ≡ ok "/slurm/auth/oidc/callback"
unfolding oidc_callback
redirects = refl

oidc_callback-once_example :
    let after = (oidc_callback env start).1 in
    (user : Account) × (token : String) × ((env.oidc_authenticate 0).0 ≡ ok (inr user))
    × ((env.generate user (env.oidc_authenticate 0).1).0 ≡ ok token)
    × (oidc_session env after ≡ (ok (granted env token user), record after { session = none }))
    × ((oidc_session env (oidc_session env after).1).0
        ≡ raised (http_error 401 "OIDC login session not found"))
oidc_callback-once_example = oidc_callback-once env start "/slurm/auth/oidc/callback" redirects
