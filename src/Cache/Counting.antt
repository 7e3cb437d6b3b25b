-- ===== src/Cache/Counting.antt =====
-- The values and the statistics of the cache (slurmweb/cache.py).
use slurm_web.Base.{
  ℕ, suc, String, ◌≡◌, ◌≢◌, refl, Bool, true, false, some, ◌==◌, ◌||◌, arith, ap, if◌then◌else◌,
  eq_iff, elem, ◌∙◌,
}
use slurm_web.Py.Value.{Value}
use slurm_web.Py.Result.{ok}
use slurm_web.Py.Exec.{Exec, ◌>>◌}
use slurm_web.Cache.{CacheKey, Redis, number, pickled, number_or_zero, put, get, bare}
use slurm_web.Cache.Server.{Server, is_set}

-- One use of the cache: was it a hit, and the name that it is counted under.
abbrev pub Event : Type 0
Event = Bool × String

-- `total` and `keys` are no names to count under: their counters would be the total and the set.
abbrev pub IsCountable : String → Type 0
IsCountable c = (c ≢ "total") × (c ≢ "keys")

module _ {S : Type 0} {redis : Redis S} (server : Server redis) where
  -- After put() under a key that is no set of the statistics, get() gives the value under that key,
  -- and what it gave before under any other.
  pub get-put_lem :
      (key other : CacheKey) (v : Value) (expiration : ℕ) (s : S)
      → is_set key.main ≡ false
      → is_set other.main ≡ false
      → (get redis other (put redis key v expiration s).1).0
        ≡ (if key.main == other.main then ok (some v) else (get redis other s).0)
  unfolding get put
  get-put_lem key other v expiration s a b =
      let (r, view, m) = server.set_lem key.main (pickled v) (some expiration) s a in
      rw
        (
          server.get_lem other.main (redis.set key.main (pickled v) (some expiration) s).1 b,
          server.get_lem other.main s b,
          view,
        )
        (ground arith)

  -- The three commands of count_hit and count_miss.
  unfoldable pub three : (n x full total : String) → Exec S (Unit {0})
  three n x full total = do bare (redis.sadd n x); bare (redis.incr full); bare (redis.incr total)

  pub record Three (n x full total : String) (s s' : S) (m t : ℕ) : Type 0 where
    pub views :
        (j : String)
        → server.view s' j ≡ (
            if total == j
            then some (number (suc t))
            else if full == j
            then some (number (suc m))
            else server.view s j)
    pub added :
        (k y : String)
        → elem y (server.members s' k)
          ≡ (if n == k then x == y || elem y (server.members s k) else elem y (server.members s k))

  pub three_lem :
      (n x full total : String) (s : S) (m t : ℕ)
      → is_set n ≡ true
      → is_set full ≡ false
      → is_set total ≡ false
      → full ≢ total
      → number_or_zero (server.view s full) ≡ ok m
      → number_or_zero (server.view s total) ≡ ok t
      → ((three n x full total s).0 ≡ ok tt) × Three n x full total s (three n x full total s).1 m t
  unfolding three
  three_lem n x full total s m t hn hf ht ne em et =
      let s1 = (redis.sadd n x s).1 in
      let (r1, v1, m1) = server.sadd_lem n x s hn in
      let (r2, v2, m2) = server.incr_lem full s1 m hf (ap number_or_zero (v1 full) ∙ em) in
      let s2 = (redis.incr full s1).1 in
      let (r3, v3, m3) =
        server.incr_lem total s2 t ht
          (ap number_or_zero (v2 total) ∙ ground (arith, eq_iff full total, v1 total)) in
      rw (r1, r2, r3)
        (
          refl,
          record {
            views = λ j. rw (v3 j, v2 j, v1 j) refl;
            added = λ k y. rw (m3 k, m2 k) (m1 k y);
          },
        )
