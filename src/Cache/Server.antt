-- ===== src/Cache/Server.antt =====
-- What the cache relies on of Redis: the documented behaviour of the six commands, for a server that
-- answers, with one client, and as long as no key expires.
use text.Mathlib.TextLemmas.{append_cancel_left, append_assoc, cons-append, head-eq_of_cons-eq}
use Prim.Native.Char.{code}
use slurm_web.Base.{
  ℕ, suc, String, ◌≡◌, ◌≢◌, Bool, true, false, Option, none, some, List, [], ◌==◌, ◌||◌, arith, ap,
  sym, ◌∙◌, if◌then◌else◌, ◌^^◌, elem,
}
use slurm_web.Py.Result.{ok}
use slurm_web.Cache.{Redis, Stored, reply, number, number_or_zero, hit_key, miss_key}

-- The two keys that hold sets.
abbrev pub is_set : String → Bool
is_set k = k == "cache-miss-keys" || k == "cache-hit-keys"

pub record Server {S : Type 0} (redis : Redis S) : Type 0 where
  -- GET of a key, and the members of a set in the order in which SMEMBERS gives them
  pub view : S → String → Option Stored
  pub members : S → String → List String
  pub set_lem :
      (k : String) (v : Stored) (e : Option ℕ) (s : S)
      → is_set k ≡ false
      → ((redis.set k v e s).0 ≡ reply tt)
        × ((j : String) → view (redis.set k v e s).1 j ≡ (if k == j then some v else view s j))
        × ((n : String) → members (redis.set k v e s).1 n ≡ members s n)
  pub get_lem : (k : String) (s : S) → is_set k ≡ false → redis.get k s ≡ (reply (view s k), s)
  pub incr_lem :
      (k : String) (s : S) (n : ℕ)
      → is_set k ≡ false
      → number_or_zero (view s k) ≡ ok n
      → ((redis.incr k s).0 ≡ reply tt)
        × ((j : String)
            → view (redis.incr k s).1 j ≡ (if k == j then some (number (suc n)) else view s j))
        × ((m : String) → members (redis.incr k s).1 m ≡ members s m)
  pub sadd_lem :
      (n x : String) (s : S)
      → is_set n ≡ true
      → ((redis.sadd n x s).0 ≡ reply tt)
        × ((j : String) → view (redis.sadd n x s).1 j ≡ view s j)
        × ((m y : String)
            → elem y (members (redis.sadd n x s).1 m)
              ≡ (if n == m then x == y || elem y (members s m) else elem y (members s m)))
  pub smembers_lem :
      (n : String) (s : S) → is_set n ≡ true → redis.smembers n s ≡ (reply (members s n), s)
  pub delete_lem :
      (k : String) (s : S)
      → ((redis.delete k s).0 ≡ reply tt)
        × ((j : String) → view (redis.delete k s).1 j ≡ (if k == j then none else view s j))
        × ((n : String) → members (redis.delete k s).1 n ≡ (if k == n then [] else members s n))

-- The names of the counters.
pub hit_key-injective : (a b : String) → hit_key a ≡ hit_key b → a ≡ b
hit_key-injective a b h = append_cancel_left "cache-hit-" a b h

pub miss_key-injective : (a b : String) → miss_key a ≡ miss_key b → a ≡ b
miss_key-injective a b h = append_cancel_left "cache-miss-" a b h

-- The names read from their seventh character.
pub hit_key-ne-miss_key : (a b : String) → hit_key a ≢ miss_key b
hit_key-ne-miss_key a b h =
    let tails =
      append_cancel_left "cache-" ("hit-" ^^ a) ("miss-" ^^ b)
        (sym (append_assoc "cache-" "hit-" a) ∙ h ∙ append_assoc "cache-" "miss-" b) in
    let e = head-eq_of_cons-eq (sym (cons-append "h" "it-" a) ∙ tails ∙ cons-append "m" "iss-" b) in
    let codes_eq = ap code e in ground arith
