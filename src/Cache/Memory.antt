-- ===== src/Cache/Memory.antt =====
-- A server in memory that behaves as the cache relies on.
use slurm_web.Base.{
  ℕ, suc, String, ◌≡◌, refl, some, List, [], ◌∷◌, ◌==◌, ◌||◌, if◌then◌else◌, arith, eq_iff, Dict,
  get, put, remove, get-put, get-remove, elem, or_else,
}
use slurm_web.Py.Result.{Result, ok, raised}
use slurm_web.Cache.{Redis, Stored, Reply, reply, redis_error, number, number_or_zero}
use slurm_web.Cache.Server.{Server}

pub record Memory : Type 0 where
  pub values : Dict Stored
  pub sets : Dict (List String)

abbrev pub members_in : Memory → String → List String
members_in s n = or_else (get s.sets n) []

abbrev increment : Result ℕ → String → Memory → Reply (Unit {0}) × Memory
increment (ok n) k s = (reply tt, record s { values = put s.values k (number (suc n)) })
increment (raised e) k s = (redis_error "value is not an integer or out of range", s)

abbrev pub memory : Redis Memory
memory = record {
  set = λ k v e s. (reply tt, record s { values = put s.values k v });
  get = λ k s. (reply (get s.values k), s);
  incr = λ k s. increment (number_or_zero (get s.values k)) k s;
  sadd = λ n x s. (
    reply tt,
    record s { sets = put s.sets n (let xs = members_in s n in if elem x xs then xs else x ∷ xs) },
  );
  smembers = λ n s. (reply (members_in s n), s);
  delete = λ k s. (reply tt, record s { values = remove s.values k; sets = remove s.sets k });
}

pub incr_law :
    (k : String) (s : Memory) (n : ℕ)
    → number_or_zero (get s.values k) ≡ ok n
    → memory.incr k s ≡ (reply tt, record s { values = put s.values k (number (suc n)) })
incr_law k s n h = rw h refl

pub set_law :
    (k : String) (v : Stored) (s : Memory) (j : String)
    → get (put s.values k v) j ≡ (if k == j then some v else get s.values j)
set_law k v s j = get-put s.values k j v

pub sadd_law :
    (n x : String) (s : Memory) (m y : String)
    → elem y (members_in (memory.sadd n x s).1 m)
      ≡ (if n == m then x == y || elem y (members_in s m) else elem y (members_in s m))
sadd_law n x s m y = ground (
  arith,
  eq_iff x y,
  eq_iff n m,
  get-put s.sets n m (x ∷ members_in s n),
  get-put s.sets n m (members_in s n),
)

pub delete_law :
    (k : String) (s : Memory) (n : String)
    → members_in (memory.delete k s).1 n ≡ (if k == n then [] else members_in s n)
delete_law k s n = ground (arith, get-remove s.sets k n)

unfoldable pub memory_server : Server memory
memory_server = record {
  view = λ s. get s.values;
  members = members_in;
  set_lem = λ k v e s h. (refl, set_law k v s, λ n. refl);
  get_lem = λ k s h. refl;
  incr_lem = λ k s n h e. rw (incr_law k s n e) (refl, set_law k (number (suc n)) s, λ m. refl);
  sadd_lem = λ n x s h. (refl, λ j. refl, sadd_law n x s);
  smembers_lem = λ n s h. refl;
  delete_lem = λ k s. (refl, get-remove s.values k, delete_law k s);
}
