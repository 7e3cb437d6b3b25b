-- ===== src/Gateway/Login/Once.antt =====
-- A login with OIDC is handed to the frontend once (slurmweb/views/auth/oidc.py).
use slurm_web.Base.{
  String, ◌≡◌, refl, true, none, some, ◌⊎◌, inl, inr, ◌==◌, Bool-cases, sym, ◌∙◌, ap,
}
use slurm_web.Py.Error.{http_error}
use slurm_web.Py.Result.{Result, ok, raised}
use slurm_web.Py.Exec.{Exec, proceed-eq-ok, proceed-ok}
use slurm_web.Gateway.Login.{
  Account, Granted, Env, Visit, authenticated, outside, keep_login, oidc_callback, oidc_session,
  oidc_enabled,
}

authenticated-inr : {A : Type 0} (o : String ⊎ A) (a : A) → authenticated o ≡ ok a → o ≡ inr a
authenticated-inr (inl err) a h = cc
authenticated-inr (inr b) a h = cc

module _ {W : Type 0} (env : Env W) where
  -- A view of OIDC that returns was enabled.
  oidc_enabled-returns :
      {A : Type 0} (view : Exec (Visit W) A) (v : Visit W) (a : A)
      → (oidc_enabled env view v).0 ≡ ok a
      → (env.enabled ≡ true) × ((env.method == "oidc") ≡ true)
  oidc_enabled-returns view v a h = elim (Bool-cases env.enabled) [
    | inr d ↦ let q = rw d at h in absurd (cc)
    | inl e ↦ elim (Bool-cases (env.method == "oidc")) [
      | inl m ↦ (e, m)
      | inr m ↦ let q = rw (e, m) at h in absurd (cc)
    ]
  ]

  abbrev pub granted : String → Account → Granted
  granted token user = record {
    result = "Authentication successful";
    token = token;
    account = some user;
  }

  -- What a callback leaves in the session of the browser.
  keep_login-session :
      (v : Visit W) (url : String)
      → (keep_login env v).0 ≡ ok url
      → (user : Account) × (token : String) × ((env.oidc_authenticate v.world).0 ≡ ok (inr user))
        × ((env.generate user (env.oidc_authenticate v.world).1).0 ≡ ok token)
        × ((keep_login env v).1.session ≡ some (record { token = token; account = user }))
  keep_login-session v url h =
      let m = outside env env.oidc_authenticate v in
      let (outcome, e, h1) = proceed-eq-ok _ m h in
      let (user, e1, h2) = proceed-eq-ok _ (authenticated outcome, m.1) h1 in
      let (token, e2, h3) = proceed-eq-ok _ (outside env (env.generate user) m.1) h2 in
      (
        user,
        token,
        e ∙ ap ok (authenticated-inr outcome user e1),
        e2,
        ap (λ (r : Result String × Visit W). r.1.session)
            (proceed-ok _ m outcome e
              ∙ proceed-ok _ (authenticated outcome, m.1) user e1
              ∙ proceed-ok _ (outside env (env.generate user) m.1) token e2),
      )

  oidc_session-some :
      (v : Visit W) (user : Account) (token : String)
      → env.enabled ≡ true
      → (env.method == "oidc") ≡ true
      → v.session ≡ some (record { token = token; account = user })
      → oidc_session env v ≡ (ok (granted token user), record v { session = none })
  unfolding oidc_session
  oidc_session-some v user token e m s = rw (e, m, s) refl

  oidc_session-none :
      (v : Visit W)
      → env.enabled ≡ true
      → (env.method == "oidc") ≡ true
      → v.session ≡ none
      → (oidc_session env v).0 ≡ raised (http_error 401 "OIDC login session not found")
  unfolding oidc_session
  oidc_session-none v e m s = rw (e, m, s) refl

  -- A callback that redirects was one of a user that the provider authenticated, with a token made for
  -- this user. The browser gets exactly this login from its next request for the session, and none
  -- from the one after it.
  pub oidc_callback-once :
      (v : Visit W) (url : String)
      → (oidc_callback env v).0 ≡ ok url
      → let after = (oidc_callback env v).1 in
        (user : Account) × (token : String) × ((env.oidc_authenticate v.world).0 ≡ ok (inr user))
        × ((env.generate user (env.oidc_authenticate v.world).1).0 ≡ ok token)
        × (oidc_session env after ≡ (ok (granted token user), record after { session = none }))
        × ((oidc_session env (oidc_session env after).1).0
            ≡ raised (http_error 401 "OIDC login session not found"))
  unfolding oidc_callback
  oidc_callback-once v url h =
      let (e, m) = oidc_enabled-returns (keep_login env) v url h in
      let kept : oidc_callback env v ≡ keep_login env v = rw (e, m) refl in
      let after = (oidc_callback env v).1 in
      let (user, token, a, b, s) =
        keep_login-session v url (ap (λ (r : Result String × Visit W). r.0) (sym kept) ∙ h) in
      let given =
        oidc_session-some after user token e m
          (ap (λ (r : Result String × Visit W). r.1.session) kept ∙ s) in
      (
        user,
        token,
        a,
        b,
        given,
        oidc_session-none (oidc_session env after).1 e m
            (ap (λ (r : Result Granted × Visit W). r.1.session) given),
      )
