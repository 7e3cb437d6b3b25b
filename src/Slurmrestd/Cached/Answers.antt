-- ===== src/Slurmrestd/Cached/Answers.antt =====
-- When the cache answers in place of slurmrestd (slurmweb/slurmrestd/__init__.py, _cached).
use slurm_web.Base.{
  ℕ, String, ◌≡◌, ◌≢◌, refl, Bool, true, false, none, some, eq_iff, eq_refl, arith, ap, ◌∙◌,
}
use slurm_web.Py.Value.{Value, null}
use slurm_web.Py.Result.{Result, ok}
use slurm_web.Py.Exec.{Exec}
use slurm_web.Cache
use slurm_web.Cache.{CacheKey, Redis, Stored, pickled, reply, loads, guarded}
use slurm_web.Cache.Server.{Server, is_set}
use slurm_web.Cache.Counting.{IsCountable}
use slurm_web.Cache.Statistics.{
  value, IsNumeric, counter_key, record_event, record_event-ok, record_event-view,
}
use slurm_web.Slurmrestd.Client.{Client}
use slurm_web.Slurmrestd.Cached.{cached, serve}

module _ {W : Type 0} {redis : Redis W} (server : Server redis) where
  -- A key of the cache that is none of the statistics'.
  pub record IsDataKey (key : CacheKey) : Type 0 where
    pub no_set : is_set key.main ≡ false
    pub no_counter : (b : Bool) (c : String) → key.main ≢ counter_key b c
    pub countable : IsCountable key.count

  abbrev pub world_after_hit : CacheKey → Client W → W
  world_after_hit key c = (Cache.count_hit redis key c.world).1

  -- The client after an answer from the cache.
  abbrev pub after_hit : CacheKey → Client W → Client W
  after_hit key c = record c { world = world_after_hit key c }

  serve-some :
      (key : CacheKey) (expiration : ℕ) (func : Exec (Client W) Value) (v : Value) (c : Client W)
      → v ≢ null
      → IsCountable key.count
      → IsNumeric server c.world
      → serve redis key expiration func (some v) c ≡ (ok v, after_hit key c)
  unfolding record_event
  serve-some key expiration func null c h k numeric = absurd (h refl)
  serve-some key expiration func v c h k numeric =
      let e : (Cache.count_hit redis key c.world).0 ≡ ok tt =
        (record_event-ok server true key c.world k numeric).0 in
      rw e refl

  -- Where the cache holds a value other than None under a data key, and the counters are numbers,
  -- that value is the answer: the client does not change but for the count of the hit.
  pub cached-hit :
      (key : CacheKey) (expiration : ℕ) (func : Exec (Client W) Value) (v : Value) (c : Client W)
      → v ≢ null
      → IsDataKey key
      → IsNumeric server c.world
      → server.view c.world key.main ≡ some (pickled v)
      → cached redis true key expiration func c ≡ (ok v, after_hit key c)
  unfolding cached Cache.get
  cached-hit key expiration func v c h d numeric e =
      rw (server.get_lem key.main c.world d.no_set, e)
        (serve-some key expiration func v c h d.countable numeric)

  -- The server after the value was put, before the miss is counted.
  abbrev pub world_after_put : CacheKey → Value → ℕ → W → W
  world_after_put key v expiration w = (redis.set key.main (pickled v) (some expiration) w).1

  put-IsNumeric :
      (key : CacheKey) (v : Value) (expiration : ℕ) (w : W)
      → IsDataKey key
      → IsNumeric server w
      → IsNumeric server (world_after_put key v expiration w)
  unfolding value
  put-IsNumeric key v expiration w d numeric b c =
      let (r, view, m) = server.set_lem key.main (pickled v) (some expiration) w d.no_set in
      let same : server.view (world_after_put key v expiration w) (counter_key b c)
          ≡ server.view w (counter_key b c) =
        view (counter_key b c)
        ∙ ground (arith, eq_iff key.main (counter_key b c), d.no_counter b c) in
      rw same (numeric b c)

  missed :
      (key : CacheKey) (expiration : ℕ) (func : Exec (Client W) Value) (v : Value) (c c' : Client W)
      → IsDataKey key
      → server.view c.world key.main ≡ none
      → func c ≡ (ok v, c')
      → IsNumeric server c'.world
      → cached redis true key expiration func c ≡ (
        ok v,
        record c' {
          world = (record_event server (false, key) (world_after_put key v expiration c'.world)).1;
        },
      )
  unfolding cached Cache.get Cache.put record_event
  missed key expiration func v c c' d e f numeric =
      let w = world_after_put key v expiration c'.world in
      let n = put-IsNumeric key v expiration c'.world d numeric in
      let r : (Cache.count_miss redis key w).0 ≡ ok tt =
        (record_event-ok server false key w d.countable n).0 in
      let (r1, view, m) = server.set_lem key.main (pickled v) (some expiration) c'.world d.no_set in
      rw (server.get_lem key.main c.world d.no_set, e, f, r1, r) refl

  -- Let the cache hold nothing for a data key, the call that it stands for give a value other than
  -- None, and the counters be numbers after it. Then the value is the answer, and the same key,
  -- asked next, answers it again, whatever the call would give by then.
  pub cached-twice :
      (key : CacheKey) (expiration : ℕ) (func later : Exec (Client W) Value) (v : Value)
      (c c' : Client W)
      → v ≢ null
      → IsDataKey key
      → server.view c.world key.main ≡ none
      → func c ≡ (ok v, c')
      → IsNumeric server c'.world
      → ((cached redis true key expiration func c).0 ≡ ok v)
        × ((cached redis true key expiration later (cached redis true key expiration func c).1).0
            ≡ ok v)
  cached-twice key expiration func later v c c' h d e f numeric =
      let w = world_after_put key v expiration c'.world in
      let n = put-IsNumeric key v expiration c'.world d numeric in
      let (r, n1) = record_event-ok server false key w d.countable n in
      let (r1, view, m) = server.set_lem key.main (pickled v) (some expiration) c'.world d.no_set in
      let kept =
        record_event-view server false key w key.main d.countable n (d.no_counter false key.count)
          (d.no_counter false "total") in
      let w1 = (record_event server (false, key) w).1 in
      rw (missed key expiration func v c c' d e f numeric) (
        refl,
        ap (λ (x : Result Value × Client W). x.0)
            (cached-hit key expiration later v (record c' { world = w1 }) h d n1
              (kept ∙ view key.main ∙ rw (eq_refl key.main) refl)),
      )
