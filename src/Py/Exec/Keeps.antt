-- ===== src/Py/Exec/Keeps.antt =====
-- What a method does to its object on every path, whether it returns or raises: a relation between
-- the state before and the state after, with a rule for each way to put methods together.
use slurm_web.Base.{Bool, true, false}
use slurm_web.Py.Error.{Exn}
use slurm_web.Py.Result.{Result, ok, raised}
use slurm_web.Py.Exec.{Exec, lift, gets, try_except, proceed, rescue, choose, when, ◌>>=◌, ◌>>◌}

pub record IsPreorder {S : Type 0} (R : S → S → Type 0) : Type 0 where
  pub same : (s : S) → R s s
  pub chain : (s t u : S) → R s t → R t u → R s u

pub record Keeps {S A : Type 0} (R : S → S → Type 0) (m : Exec S A) : Type 0 where
  pub from : (s : S) → R s (m s).1

module _ {S : Type 0} {R : S → S → Type 0} ⦃p : IsPreorder R⦄ where
  pub lift-Keeps : {A : Type 0} (r : Result A) → Keeps R (lift {S = S} r)
  lift-Keeps r = record { from = p.same }

  pub gets-Keeps : {A : Type 0} (f : S → A) → Keeps R (gets f)
  gets-Keeps f = record { from = p.same }

  pub proceed-Keeps :
      {A B : Type 0} (f : A → Exec S B) (s : S) (r : Result A × S)
      → R s r.1
      → ((a : A) → Keeps R (f a))
      → R s (proceed f r).1
  proceed-Keeps f s (ok a, t) h k = p.chain s t (f a t).1 h ((k a).from t)
  proceed-Keeps f s (raised e, t) h k = h

  pub bind-Keeps :
      {A B : Type 0} (m : Exec S A) (f : A → Exec S B)
      → Keeps R m
      → ((a : A) → Keeps R (f a))
      → Keeps R (m >>= f)
  bind-Keeps m f h k = record { from = λ s. proceed-Keeps f s (m s) (h.from s) k }

  pub then-Keeps :
      {A B : Type 0} (m : Exec S A) (n : Exec S B) → Keeps R m → Keeps R n → Keeps R (m >> n)
  then-Keeps m n h k = record { from = λ s. proceed-Keeps (λ _. n) s (m s) (h.from s) (λ _. k) }

  rescue-Keeps :
      {A : Type 0} (f : Exn → Exec S A) (s : S) (r : Result A × S)
      → R s r.1
      → ((e : Exn) → Keeps R (f e))
      → R s (rescue f r).1
  rescue-Keeps f s (ok a, t) h k = h
  rescue-Keeps f s (raised e, t) h k = p.chain s t (f e t).1 h ((k e).from t)

  pub try_except-Keeps :
      {A : Type 0} (m : Exec S A) (f : Exn → Exec S A)
      → Keeps R m
      → ((e : Exn) → Keeps R (f e))
      → Keeps R (try_except m f)
  try_except-Keeps m f h k = record { from = λ s. rescue-Keeps f s (m s) (h.from s) k }

  pub choose-Keeps :
      {A : Type 0} (b : Bool) (m n : Exec S A) → Keeps R m → Keeps R n → Keeps R (choose b m n)
  choose-Keeps true m n h k = h
  choose-Keeps false m n h k = k

  pub when-Keeps : (b : Bool) (m : Exec S (Unit {0})) → Keeps R m → Keeps R (when b m)
  when-Keeps true m h = h
  when-Keeps false m h = lift-Keeps (ok tt)

pub ruleset keeps_rules =
    (lift-Keeps, gets-Keeps, bind-Keeps, then-Keeps, try_except-Keeps, choose-Keeps, when-Keeps)
