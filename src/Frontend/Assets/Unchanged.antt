-- ===== src/Frontend/Assets/Unchanged.antt =====
-- What a failed preparation of the assets leaves (slurmweb/ui.py).
use slurm_web.Base.{String, ◌≡◌, ◌≢◌, refl, ◌∙◌, subst, sym}
use slurm_web.Py.Error.{Exn}
use slurm_web.Py.Result.{Result, ok, raised}
use slurm_web.Py.Exec.{Exec, proceed}
use slurm_web.Py.Exec.Keeps.{Keeps, IsPreorder, keeps_rules}
use slurm_web.Frontend.{Settings}
use slurm_web.Frontend.Assets.{Env, Frontend, outside, prepared, prepare_assets}

module _ {W : Type 0} (env : Env W) where
  -- The attributes are the same.
  abbrev pub Same : Frontend W → Frontend W → Type 0
  Same f g =
      (g.logo_files ≡ f.logo_files) × (g.assets_path ≡ f.assets_path) × (g.at_exit ≡ f.at_exit)

  instance abbrev Same_preorder : IsPreorder Same
  Same_preorder = record {
    same = λ f. (refl, refl, refl);
    chain = λ f g h (a, b, c) (d, e, i). (d ∙ a, e ∙ b, i ∙ c);
  }

  outside-Keeps : {A : Type 0} (m : Exec W A) → Keeps Same (outside env m)
  outside-Keeps m = record { from = λ f. (refl, refl, refl) }

  prepared-Keeps :
      (settings : Settings) (prefix : String) → Keeps Same (prepared env settings prefix)
  unfolding prepared
  prepared-Keeps settings prefix = search (keeps_rules, outside-Keeps) depth 20

  -- Where what follows never raises, the state of a raise is the one before it.
  proceed-raised :
      {A B : Type 0} (k : A → Exec (Frontend W) B) (r : Result A × Frontend W) (e : Exn)
      → ((a : A) (f : Frontend W) → (k a f).0 ≢ raised e)
      → (proceed k r).0 ≡ raised e
      → (proceed k r).1 ≡ r.1
  proceed-raised k (ok a, f) e n h = absurd (n a f h)
  proceed-raised k (raised x, f) e n h = refl

  -- Where the preparation of the assets raises, the attributes of the frontend and the directories that
  -- are to be removed at the exit are as they were.
  pub prepare_assets-Same :
      (settings : Settings) (prefix : String) (f : Frontend W) (e : Exn)
      → (prepare_assets env settings prefix f).0 ≡ raised e
      → Same f (prepare_assets env settings prefix f).1
  unfolding prepare_assets
  prepare_assets-Same settings prefix f e h =
      let r = prepared env settings prefix f in
      let q = proceed-raised _ r e (λ a g p. cc) h in
      subst (Same f) (sym q) ((prepared-Keeps settings prefix).from f)
