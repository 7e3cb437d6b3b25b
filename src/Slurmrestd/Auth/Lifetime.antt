-- ===== src/Slurmrestd/Auth/Lifetime.antt =====
-- The life of the tokens that headers() sends (slurmweb/slurmrestd/auth.py).
use slurm_web.Base.{
  ℕ, String, ◌≡◌, ◌≤◌, ◌+◌, ◌≢◌, true, false, Option, eq_iff, arith, min, pos, ◌+ℤ◌, ◌-ℤ◌, is_some,
  or_else, ◌≤ℤ◌,
}
use slurm_web.Py.Result.{Result, ok, is_ok}
use slurm_web.Slurmrestd.Auth.{
  Tokens, Authentifier, missing, init, manager_generate, renew, renew_late, read_gap, refresh,
  headers,
}

-- What an authentifier holds after __init__, and between calls of headers().
pub record IsReady (a : Authentifier) : Type 0 where
  pub static_token : a.method ≢ "local" → a.jwt_mode ≡ "static" → missing a.jwt_token ≡ false
  pub with_manager : a.method ≢ "local" → a.jwt_mode ≢ "static" → a.has_manager ≡ true
  pub dated : missing a.jwt_token ≡ false → is_some a.expiration ≡ true

-- The clock does not go back, neither by itself nor while a token is made.
pub record Forward {W : Type 0} (env : Tokens W) : Type 0 where
  pub tick_forward : (w : W) → env.clock w ≤ env.clock (env.tick w)
  pub generate_forward :
      (l : ℕ) (u : String) (w : W) → env.clock w ≤ env.clock (env.generate l u w).1

-- RFL makes a token whenever it is asked.
abbrev pub Generates : {W : Type 0} → Tokens W → Type 0
Generates {W} env = (l : ℕ) (u : String) (w : W) → is_ok (env.generate l u w).0 ≡ true

-- The token in hand is valid until `t` at least.
abbrev pub LastsUntil : ℕ → Authentifier → Type 0
LastsUntil t a =
    (is_some a.jwt_token ≡ true)
    × (is_some a.expiration ≡ true)
    × (pos t ≤ℤ or_else a.expiration (pos 0))

module _ {W : Type 0} (env : Tokens W) where
  -- The constructor gives an authentifier that is ready, or raises.
  pub init-IsReady :
      (method mode user key : String) (lifespan : ℕ) (token : Option String) (w : W)
      (a : Authentifier)
      → init env method mode user key lifespan token w ≡ ok a
      → IsReady a
  unfolding init
  init-IsReady method mode user key lifespan token w a h = record {
    static_token = λ m s. ground (arith, eq_iff method "local", eq_iff mode "static");
    with_manager = λ m s. ground (arith, eq_iff method "local", eq_iff mode "static");
    dated = λ t. ground (arith, eq_iff method "local", eq_iff mode "static");
  }

  module _ (forward : Forward env) where
    renew-LastsUntil :
        (a : Authentifier) (w : W)
        → (renew env (a, w)).0 ≡ ok tt
        → LastsUntil (env.clock w + a.jwt_lifespan) (renew env (a, w)).1.0
    unfolding renew manager_generate ◌+ℤ◌
    renew-LastsUntil a w h = ground arith

    -- The part of `refresh` that follows the first token.
    gap-LastsUntil :
        (a : Authentifier) (w : W)
        → is_some a.jwt_token ≡ true
        → (renew_late env (a, w)).0 ≡ ok tt
        → LastsUntil (env.clock w + min 60 a.jwt_lifespan) (renew_late env (a, w)).1.0
    unfolding renew_late manager_generate ◌-ℤ◌ ◌+ℤ◌
    gap-LastsUntil a w t h = ground (arith, forward.tick_forward w)

    -- A renewal that ends normally leaves a token in hand that is valid for the lifespan of a fresh
    -- token, or for a minute where that is shorter, from the moment headers() was called.
    pub refresh-LastsUntil :
        (a : Authentifier) (w : W)
        → (refresh env (a, w)).0 ≡ ok tt
        → LastsUntil (env.clock w + min 60 a.jwt_lifespan) (refresh env (a, w)).1.0
    unfolding refresh manager_generate ◌-ℤ◌ ◌+ℤ◌
    refresh-LastsUntil a w h = ground (
      arith,
      forward.tick_forward w,
      forward.tick_forward (env.tick w),
      forward.generate_forward a.jwt_lifespan a.jwt_user (env.tick w),
      forward.tick_forward (env.generate a.jwt_lifespan a.jwt_user (env.tick w)).1,
    )

  module _ (generates : Generates env) where
    refresh_total :
        (a : Authentifier) (w : W)
        → a.has_manager ≡ true
        → (missing a.jwt_token ≡ false → is_some a.expiration ≡ true)
        → is_ok (refresh env (a, w)).0 ≡ true
    unfolding refresh manager_generate
    refresh_total a w m d = ground (
      arith,
      generates a.jwt_lifespan a.jwt_user (env.tick w),
      generates a.jwt_lifespan a.jwt_user (env.tick (env.tick w)),
      generates a.jwt_lifespan a.jwt_user
          (env.tick (env.tick (env.generate a.jwt_lifespan a.jwt_user (env.tick w)).1)),
    )

    -- Where tokens can be made, headers() raises nothing on a ready authentifier.
    pub headers_total : (a : Authentifier) (w : W) → IsReady a → is_ok (headers env (a, w)).0 ≡ true
    unfolding headers read_gap
    headers_total a w ready = ground (
      arith,
      eq_iff a.method "local",
      eq_iff a.jwt_mode "static",
      refresh_total a w,
      ready.static_token,
      ready.with_manager,
      ready.dated,
    )
