-- ===== src/Cache.antt =====
-- slurmweb/cache.py: the cache over Redis and its statistics.
pub mod Server
pub mod Counting
pub mod Statistics
pub mod Memory
pub mod Tests
use slurm_web.Base.{
  ℕ, zero, suc, ◌+◌, String, ◌≡◌, Bool, true, false, Option, none, some, List, [], ◌∷◌, ◌==◌,
  if◌then◌else◌, ◌^^◌, ◌&&◌, Dict, put as dict_put,
}
use slurm_web.Py.Value.{Value}
use slurm_web.Py.Error.{Exn, cache_error, value_error, other_error}
use slurm_web.Py.Result.{Result, ok, raised}
use slurm_web.Py.Exec.{Exec, lift, pure, raise, try_except, ◌>>=◌, ◌>>◌}

-- CacheKey: the key of the data, and the name under which its use is counted
pub record CacheKey : Type 0 where
  pub main : String
  pub count : String

-- CacheKey.__init__: an empty count is no count
abbrev pub cache_key : String → Option String → CacheKey
cache_key main none = record { main = main; count = main }
cache_key main (some count) = record { main = main; count = if count == "" then main else count }

-- CacheKey.__eq__
pub same_key : CacheKey → CacheKey → Bool
same_key a b = a.main == b.main && a.count == b.count

-- What Redis stores under a key: a pickled value, or the digits of a counter.
pub data Stored : Type 0 where
  pickled : Value → Stored
  number : ℕ → Stored

-- The answer of a command: a result, one of the two errors that the service turns into its own, or
-- another error of the redis library.
pub data Reply {ℓ} (A : Type ℓ) : Type ℓ where
  reply : A → Reply A
  redis_error : String → Reply A
  other : String → Reply A

-- The commands of redis.Redis, on the state of the server.
pub record Redis (S : Type 0) : Type 0 where
  pub set : String → Stored → Option ℕ → S → Reply (Unit {0}) × S
  pub get : String → S → Reply (Option Stored) × S
  pub incr : String → S → Reply (Unit {0}) × S
  pub sadd : String → String → S → Reply (Unit {0}) × S
  pub smembers : String → S → Reply (List String) × S
  pub delete : String → S → Reply (Unit {0}) × S

abbrev pub caught : {A : Type 0} → Reply A → Result A
caught (reply a) = ok a
caught (redis_error e) = raised (cache_error e)
caught (other e) = raised (other_error e)

abbrev pub uncaught : {A : Type 0} → Reply A → Result A
uncaught (reply a) = ok a
uncaught (redis_error e) = raised (other_error e)
uncaught (other e) = raised (other_error e)

-- A command inside the `try` of put and get, and one outside.
abbrev pub guarded : {S A : Type 0} → (S → Reply A × S) → Exec S A
guarded command s = let (r, s') = command s in (caught r, s')

abbrev pub bare : {S A : Type 0} → (S → Reply A × S) → Exec S A
bare command s = let (r, s') = command s in (uncaught r, s')

-- pickle.loads, which refuses what pickle did not write
abbrev pub loads : Option Stored → Result (Option Value)
loads none = ok none
loads (some (pickled v)) = ok (some v)
loads (some (number n)) = raised (other_error "UnpicklingError")

-- int(value)
abbrev pub as_number : Stored → Result ℕ
as_number (number n) = ok n
as_number (pickled v) = raised value_error

-- int(value or 0)
abbrev pub number_or_zero : Option Stored → Result ℕ
number_or_zero none = ok 0
number_or_zero (some v) = as_number v

abbrev pub miss_key : String → String
miss_key k = "cache-miss-" ^^ k

abbrev pub hit_key : String → String
hit_key k = "cache-hit-" ^^ k

module _ {S : Type 0} (redis : Redis S) where
  unfoldable pub put : CacheKey → Value → ℕ → Exec S (Unit {0})
  put key value expiration = guarded (redis.set key.main (pickled value) (some expiration))

  unfoldable pub get : CacheKey → Exec S (Option Value)
  get key = do value ← guarded (redis.get key.main); lift (loads value)

  unfoldable pub count_miss : CacheKey → Exec S (Unit {0})
  count_miss key = do
    bare (redis.sadd "cache-miss-keys" key.count)
    bare (redis.incr (miss_key key.count))
    bare (redis.incr "cache-miss-total")

  unfoldable pub count_hit : CacheKey → Exec S (Unit {0})
  count_hit key = do
    bare (redis.sadd "cache-hit-keys" key.count)
    bare (redis.incr (hit_key key.count))
    bare (redis.incr "cache-hit-total")

  -- one round of a loop of metrics(): a key without a value is passed over
  record_value : String → Dict ℕ → Option Stored → Exec S (Dict ℕ)
  record_value k d none = pure d
  record_value k d (some value) = do n ← lift (as_number value); pure (dict_put d k n)

  unfoldable pub collect : (String → String) → List String → Dict ℕ → Exec S (Dict ℕ)
  unfolding record_value
  collect full [] d = pure d
  collect full (k ∷ ks) d = do
    value ← bare (redis.get (full k))
    d' ← record_value k d value
    collect full ks d'

  unfoldable pub metrics : Exec S (Dict ℕ × Dict ℕ × ℕ × ℕ)
  metrics = do
    missed ← bare (redis.smembers "cache-miss-keys")
    cache_misses ← collect miss_key missed []
    hit ← bare (redis.smembers "cache-hit-keys")
    cache_hits ← collect hit_key hit []
    hit_total ← bare (redis.get "cache-hit-total")
    hits ← lift (number_or_zero hit_total)
    miss_total ← bare (redis.get "cache-miss-total")
    misses ← lift (number_or_zero miss_total)
    pure (cache_hits, cache_misses, hits, misses)

  pub delete_all : (String → String) → List String → Exec S (Unit {0})
  delete_all full [] = pure tt
  delete_all full (k ∷ ks) = do bare (redis.delete (full k)); delete_all full ks

  unfoldable pub reset : Exec S (Unit {0})
  reset = do
    bare (redis.set "cache-hit-total" (number 0) none)
    bare (redis.set "cache-miss-total" (number 0) none)
    hit ← bare (redis.smembers "cache-hit-keys")
    delete_all hit_key hit
    missed ← bare (redis.smembers "cache-miss-keys")
    delete_all miss_key missed
    bare (redis.delete "cache-hit-keys")
    bare (redis.delete "cache-miss-keys")
