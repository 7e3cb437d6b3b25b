-- ===== src/Slurmrestd/Auth/Tests.antt =====
-- Tokens of a world that is a clock: every reading takes a second.
use slurm_web.Base.{ℕ, ◌+◌, ◌≡◌, refl, true, none, some, pos, ◌+ℤ◌, ◌-ℤ◌}
use slurm_web.Py.Result.{ok}
use slurm_web.Slurmrestd.Auth.{Tokens, Authentifier, refresh, manager_generate}

abbrev seconds : Tokens ℕ
seconds = record {
  clock = λ t. t;
  tick = λ t. t + 1;
  generate = λ l u t. (ok "token", t);
  expiration_of = λ s t. some (pos 5000);
  key_loads = λ k t. true;
}

abbrev auto : Authentifier
auto = record {
  method = "jwt";
  jwt_mode = "auto";
  jwt_user = "slurm";
  jwt_key = "/key";
  jwt_lifespan = 3600;
  jwt_token = none;
  expiration = none;
  has_manager = true;
}

abbrev fresh : Authentifier
fresh = record auto { jwt_token = some "token"; expiration = some (pos 500) }

idle : refresh seconds (fresh, 440) ≡ (ok tt, (fresh, 441))
unfolding refresh ◌-ℤ◌
idle = refl

-- one second less and the token is renewed
renewed :
    refresh seconds (fresh, 441) ≡ (ok tt, (record fresh { expiration = some (pos 4042) }, 443))
unfolding refresh manager_generate ◌+ℤ◌ ◌-ℤ◌
renewed = refl
