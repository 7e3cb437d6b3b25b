-- ===== src/Py/Exec.antt =====
-- Methods that change an object and may raise. What was written before a raise stays written, so
-- the state comes back beside the exception too.
pub mod Keeps
use slurm_web.Base.{◌≡◌, refl, ap, Bool, true, false}
use slurm_web.Py.Error.{Exn}
use slurm_web.Py.Result.{Result, ok, raised, ok-injective}

-- A method of an object with fields `S`.
abbrev pub Exec {ℓ} : Type ℓ → Type ℓ → Type ℓ
Exec S A = S → Result A × S

-- Code that raises on its own, run in a method.
abbrev pub lift {ℓ} : {S A : Type ℓ} → Result A → Exec S A
lift r s = (r, s)

abbrev pub pure {ℓ} : {S A : Type ℓ} → A → Exec S A
pure a = lift (ok a)

abbrev pub raise {ℓ} : {S A : Type ℓ} → Exn → Exec S A
raise e = lift (raised e)

-- reads and writes of `self`
abbrev pub gets {ℓ} : {S A : Type ℓ} → (S → A) → Exec S A
gets f s = (ok (f s), s)

abbrev pub modify : {S : Type 0} → (S → S) → Exec S Unit
modify f s = (ok tt, f s)

abbrev pub proceed {ℓ} : {S A B : Type ℓ} → (A → Exec S B) → Result A × S → Result B × S
proceed f (ok a, s) = f a s
proceed f (raised e, s) = (raised e, s)

infixl 5 ◌>>=◌ ◌>>◌
abbrev pub ◌>>=◌ {ℓ} : {S A B : Type ℓ} → Exec S A → (A → Exec S B) → Exec S B
◌>>=◌ m f s = proceed f (m s)

abbrev pub ◌>>◌ {ℓ} : {S A B : Type ℓ} → Exec S A → Exec S B → Exec S B
m >> k = m >>= λ _. k

-- `if b: m else: n`, and `if b: m`
abbrev pub choose {ℓ} : {S A : Type ℓ} → Bool → Exec S A → Exec S A → Exec S A
choose true m n = m
choose false m n = n

abbrev pub when : {S : Type 0} → Bool → Exec S (Unit {0}) → Exec S (Unit {0})
when true m = m
when false m = pure tt

-- `try: m except e: h(e)`, where the handler raises what it does not catch.
abbrev pub rescue {ℓ} : {S A : Type ℓ} → (Exn → Exec S A) → Result A × S → Result A × S
rescue h (ok a, s) = (ok a, s)
rescue h (raised e, s) = h e s

abbrev pub try_except {ℓ} : {S A : Type ℓ} → Exec S A → (Exn → Exec S A) → Exec S A
try_except m h s = rescue h (m s)

pub rescue-ok :
    {S A : Type 0} (h : Exn → Exec S A) (r : Result A × S) (a : A) → r.0 ≡ ok a → rescue h r ≡ r
rescue-ok h (ok a, s) b e = refl
rescue-ok h (raised x, s) b e = cc

-- What a successful sequence came from.
pub proceed-eq-ok :
    {S A B : Type 0} (f : A → Exec S B) (r : Result A × S) {b : B}
    → (proceed f r).0 ≡ ok b
    → (a : A) × (r.0 ≡ ok a) × ((f a r.1).0 ≡ ok b)
proceed-eq-ok f (ok a, s) h = (a, refl, h)
proceed-eq-ok f (raised e, s) h = cc

-- What follows a method that returned.
pub proceed-ok :
    {S A B : Type 0} (f : A → Exec S B) (r : Result A × S) (a : A)
    → r.0 ≡ ok a
    → proceed f r ≡ f a r.1
proceed-ok f (ok b, s) a h = ap (λ x. f x s) (ok-injective h)
proceed-ok f (raised e, s) a h = cc
