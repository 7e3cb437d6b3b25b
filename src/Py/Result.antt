-- ===== src/Py/Result.antt =====
-- Pure code that may raise, with its `do` blocks.
use slurm_web.Base.{◌⊎◌, inl, inr, ◌≡◌, refl, Bool, true, false, Option, none, some}
use slurm_web.Py.Error.{Exn}

pub data Result {ℓ} (A : Type ℓ) : Type ℓ where
  raised : Exn → Result A
  ok : A → Result A

abbrev pub is_ok {ℓ} : {A : Type ℓ} → Result A → Bool
is_ok (raised _) = false
is_ok (ok _) = true

abbrev pub or_raise {ℓ} : {A : Type ℓ} → Option A → Exn → Result A
or_raise (some value) _ = ok value
or_raise none exception = raised exception

-- What follows a raise does not run.
infixl 5 ◌>>=◌
abbrev pub ◌>>=◌ {κ ℓ} : {B : Type κ} {A : Type ℓ} → Result A → (A → Result B) → Result B
raised exception >>= _ = raised exception
ok value >>= next = next value

pub ok-injective {ℓ} : {A : Type ℓ} {a b : A} → ok a ≡ ok b → a ≡ b
ok-injective h = cc

-- What a successful bind came from.
pub >>=-eq-ok {κ ℓ} :
    {B : Type κ} {A : Type ℓ} (m : Result A) (next : A → Result B) {b : B}
    → (m >>= next) ≡ ok b
    → (a : A) × (m ≡ ok a) × (next a ≡ ok b)
>>=-eq-ok (raised _) next h = cc
>>=-eq-ok (ok a) next h = (a, refl, h)

pub Result-cases {ℓ} :
    {A : Type ℓ} (r : Result A) → ((a : A) × (r ≡ ok a)) ⊎ ((e : Exn) × (r ≡ raised e))
Result-cases (raised exception) = inr (exception, refl)
Result-cases (ok value) = inl (value, refl)
