-- ===== src/Cache/Statistics.antt =====
-- The statistics of the cache over a run of hits and misses (slurmweb/cache.py).
use slurm_web.Base.{
  ℕ, suc, ◌+◌, String, ◌≡◌, ◌≢◌, refl, Bool, true, false, not, Option, none, some, List, [], ◌∷◌,
  ◌==◌, ◌||◌, ◌&&◌, arith, ap, if◌then◌else◌, eq_iff, ◌∙◌, sym, All,
}
use slurm_web.Py.Result.{Result, ok, raised}
use slurm_web.Py.Exec.{Exec, pure, ◌>>◌}
use slurm_web.Cache.{
  CacheKey, Redis, Stored, number, number_or_zero, hit_key, miss_key, count_hit, count_miss,
  metrics, collect, delete_all, reset,
}
use slurm_web.Cache.Server.{
  Server, is_set, hit_key-injective, miss_key-injective, hit_key-ne-miss_key,
}
use slurm_web.Cache.Counting.{three, Three, three_lem, IsCountable}

-- The counters and the sets of hits, and those of misses.
abbrev pub counter_key : Bool → String → String
counter_key true c = hit_key c
counter_key false c = miss_key c

abbrev pub set_key : Bool → String
set_key true = "cache-hit-keys"
set_key false = "cache-miss-keys"

-- A use of the cache: a hit or not, of a key.
abbrev pub Event : Type 0
Event = Bool × CacheKey

-- Is the event counted by this counter? Every hit is counted by the total of hits.
abbrev pub counts : Bool → String → Event → Bool
counts true c (true, key) = c == key.count || c == "total"
counts false c (false, key) = c == key.count || c == "total"
counts _ c e = false

pub uses : Bool → String → List Event → ℕ
uses b c [] = 0
uses b c (e ∷ es) = (if counts b c e then 1 else 0) + uses b c es

counter_key-is_set : (b : Bool) (c : String) → c ≢ "keys" → is_set (counter_key b c) ≡ false
counter_key-is_set true c h = ground (
  arith,
  eq_iff (hit_key c) "cache-miss-keys",
  eq_iff (hit_key c) "cache-hit-keys",
  hit_key-ne-miss_key c "keys",
  hit_key-injective c "keys",
)
counter_key-is_set false c h =
    let apart : miss_key c ≢ "cache-hit-keys" = λ e. hit_key-ne-miss_key "keys" c (sym e) in
    ground (
      arith,
      eq_iff (miss_key c) "cache-miss-keys",
      eq_iff (miss_key c) "cache-hit-keys",
      apart,
      miss_key-injective c "keys",
    )

both : Bool → Bool → Bool
both true d = d
both false d = not d

counter_key-eq :
    (b d : Bool) (x c : String) → (counter_key b x == counter_key d c) ≡ (both b d && x == c)
unfolding both
counter_key-eq true true x c =
    ground (arith, eq_iff (hit_key x) (hit_key c), eq_iff x c, hit_key-injective x c)
counter_key-eq true false x c =
    ground (arith, eq_iff (hit_key x) (miss_key c), hit_key-ne-miss_key x c)
counter_key-eq false true x c =
    let apart : miss_key x ≢ hit_key c = λ e. hit_key-ne-miss_key c x (sym e) in
    ground (arith, eq_iff (miss_key x) (hit_key c))
counter_key-eq false false x c =
    ground (arith, eq_iff (miss_key x) (miss_key c), eq_iff x c, miss_key-injective x c)

total-ne-keys : ◌≢◌ {A = String} "total" "keys"
total-ne-keys e = ground (arith, eq_iff "total" "keys")

set_key-is_set : (b : Bool) → is_set (set_key b) ≡ true
set_key-is_set true = refl
set_key-is_set false = refl

counter_key-injective : (b : Bool) (c d : String) → counter_key b c ≡ counter_key b d → c ≡ d
counter_key-injective true = hit_key-injective
counter_key-injective false = miss_key-injective

abbrev pub number_of : Result ℕ → ℕ
number_of (ok n) = n
number_of (raised e) = 0

module _ {S : Type 0} {redis : Redis S} (server : Server redis) where
  -- What a counter stands at.
  unfoldable pub value : S → Bool → String → ℕ
  value s b c = number_of (number_or_zero (server.view s (counter_key b c)))

  -- Every counter holds a number or is not there.
  abbrev pub IsNumeric : S → Type 0
  IsNumeric s =
      (b : Bool) (c : String) → number_or_zero (server.view s (counter_key b c)) ≡ ok (value s b c)

  unfoldable pub record_event : Event → Exec S (Unit {0})
  record_event (true, key) = count_hit redis key
  record_event (false, key) = count_miss redis key

  unfoldable pub record_events : List Event → Exec S (Unit {0})
  record_events [] = pure tt
  record_events (e ∷ es) = do record_event e; record_events es

  record_event-three :
      (b : Bool) (key : CacheKey) (s : S)
      → record_event (b, key) s
        ≡ three server (set_key b) key.count (counter_key b key.count) (counter_key b "total") s
  unfolding record_event count_hit count_miss three
  record_event-three true key s = refl
  record_event-three false key s = refl

  -- The new value of every counter.
  after_event : Bool → CacheKey → S → Bool → String → Option Stored
  after_event b key s d c =
      if both b d && "total" == c
      then some (number (suc (value s b "total")))
      else if both b d && key.count == c
      then some (number (suc (value s b key.count)))
      else server.view s (counter_key d c)

  record Recorded (b : Bool) (key : CacheKey) (s s' : S) : Type 0 where
    numeric : IsNumeric s'
    values :
        (d : Bool) (c : String)
        → value s' d c ≡ (if counts d c (b, key) then 1 else 0) + value s d c

  after_lem :
      (b : Bool) (key : CacheKey) (s : S) (d : Bool) (c : String)
      → key.count ≢ "total"
      → IsNumeric s
      → number_or_zero (after_event b key s d c)
        ≡ ok ((if counts d c (b, key) then 1 else 0) + value s d c)
  unfolding after_event both
  after_lem true key s true c h numeric = ground (
    arith,
    eq_iff "total" c,
    eq_iff c "total",
    eq_iff key.count c,
    eq_iff c key.count,
    numeric true c,
  )
  after_lem true key s false c h numeric = numeric false c ∙ ap ok (omega arith)
  after_lem false key s true c h numeric = numeric true c ∙ ap ok (omega arith)
  after_lem false key s false c h numeric = ground (
    arith,
    eq_iff "total" c,
    eq_iff c "total",
    eq_iff key.count c,
    eq_iff c key.count,
    numeric false c,
  )

  after_views :
      (b : Bool) (key : CacheKey) (s s' : S)
      → Three server
          (set_key b)
          key.count
          (counter_key b key.count)
          (counter_key b "total")
          s
          s'
          (value s b key.count)
          (value s b "total")
      → (d : Bool) (c : String) → server.view s' (counter_key d c) ≡ after_event b key s d c
  unfolding after_event
  after_views b key s s' t d c =
      rw (t.views (counter_key d c), counter_key-eq b d "total" c, counter_key-eq b d key.count c)
        refl

  Three-Recorded :
      (b : Bool) (key : CacheKey) (s s' : S)
      → key.count ≢ "total"
      → IsNumeric s
      → Three server
          (set_key b)
          key.count
          (counter_key b key.count)
          (counter_key b "total")
          s
          s'
          (value s b key.count)
          (value s b "total")
      → Recorded b key s s'
  unfolding value
  Three-Recorded b key s s' h numeric t =
      let now = λ (d : Bool) (c : String).
        ap number_or_zero (after_views b key s s' t d c) ∙ after_lem b key s d c h numeric in
      record {
        numeric = λ d c. now d c ∙ ap ok (sym (ap number_of (now d c)));
        values = λ d c. ap number_of (now d c);
      }

  record_event-Recorded :
      (b : Bool) (key : CacheKey) (s : S)
      → IsCountable key.count
      → IsNumeric s
      → ((record_event (b, key) s).0 ≡ ok tt) × Recorded b key s (record_event (b, key) s).1
  record_event-Recorded b key s (h, k) numeric =
      let (r, t) =
        three_lem server (set_key b) key.count (counter_key b key.count) (counter_key b "total") s
          (value s b key.count) (value s b "total") (set_key-is_set b)
          (counter_key-is_set b key.count k) (counter_key-is_set b "total" total-ne-keys)
          (λ e. h (counter_key-injective b key.count "total" e)) (numeric b key.count)
          (numeric b "total") in
      rw record_event-three (r, Three-Recorded b key s _ h numeric t)

  -- An event succeeds, keeps the counters numbers, and leaves the keys that are no counters alone.
  pub record_event-ok :
      (b : Bool) (key : CacheKey) (s : S)
      → IsCountable key.count
      → IsNumeric s
      → ((record_event (b, key) s).0 ≡ ok tt) × IsNumeric (record_event (b, key) s).1
  record_event-ok b key s k numeric =
      let (r, e) = record_event-Recorded b key s k numeric in (r, e.numeric)

  pub record_event-view :
      (b : Bool) (key : CacheKey) (s : S) (j : String)
      → IsCountable key.count
      → IsNumeric s
      → j ≢ counter_key b key.count
      → j ≢ counter_key b "total"
      → server.view (record_event (b, key) s).1 j ≡ server.view s j
  record_event-view b key s j (h, k) numeric hc ht =
      let (r, t) =
        three_lem server (set_key b) key.count (counter_key b key.count) (counter_key b "total") s
          (value s b key.count) (value s b "total") (set_key-is_set b)
          (counter_key-is_set b key.count k) (counter_key-is_set b "total" total-ne-keys)
          (λ e. h (counter_key-injective b key.count "total" e)) (numeric b key.count)
          (numeric b "total") in
      rw record_event-three (
        ground
          (arith, t.views j, eq_iff (counter_key b "total") j, eq_iff (counter_key b key.count) j))

  -- On a server whose counters are numbers, a run of hits and misses under countable names
  -- succeeds, leaves numbers, and adds to each counter the number of the events of its kind and
  -- name; the totals count all events of their kind.
  pub record_events-value :
      (es : List Event) (s : S)
      → All (λ e. IsCountable e.1.count) es
      → IsNumeric s
      → ((record_events es s).0 ≡ ok tt)
        × IsNumeric (record_events es s).1
        × ((b : Bool) (c : String) → value (record_events es s).1 b c ≡ uses b c es + value s b c)
  unfolding record_events uses
  record_events-value [] s all numeric = (refl, numeric, λ b c. omega arith)
  record_events-value ((d, key) ∷ es) s all numeric =
      let (r, e) = record_event-Recorded d key s all.0 numeric in
      let (r1, n1, v1) = record_events-value es (record_event (d, key) s).1 all.1 e.numeric in
      rw r (r1, n1, λ b c. omega (arith, v1 b c, e.values b c))

  -- A command that deletes leaves a counter as it is or sets it to zero.
  delete_all_lem :
      (full : String → String) (ks : List String) (s : S)
      → ((delete_all redis full ks s).0 ≡ ok tt)
        × ((j : String)
            → number_or_zero (server.view s j) ≡ ok 0
            → number_or_zero (server.view (delete_all redis full ks s).1 j) ≡ ok 0)
  unfolding delete_all
  delete_all_lem full [] s = (refl, λ j h. h)
  delete_all_lem full (k ∷ ks) s =
      let (r, v, m) = server.delete_lem (full k) s in
      let (r1, v1) = delete_all_lem full ks (redis.delete (full k) s).1 in
      rw r (r1, λ j h. v1 j (ground (arith, v j)))

  metrics_empty :
      (s : S)
      → number_or_zero (server.view s "cache-hit-total") ≡ ok 0
      → number_or_zero (server.view s "cache-miss-total") ≡ ok 0
      → server.members s "cache-hit-keys" ≡ []
      → server.members s "cache-miss-keys" ≡ []
      → (metrics redis s).0 ≡ ok ([], [], 0, 0)
  unfolding metrics collect
  metrics_empty s hits misses no_hits no_misses =
      rw
        (
          server.smembers_lem "cache-miss-keys" s refl,
          no_misses,
          server.smembers_lem "cache-hit-keys" s refl,
          no_hits,
          server.get_lem "cache-hit-total" s refl,
          hits,
          server.get_lem "cache-miss-total" s refl,
          misses,
        )
        refl

  -- On any state of the server reset() succeeds, and the statistics that it leaves are empty: no
  -- name, and totals of zero.
  pub reset-metrics :
      (s : S)
      → ((reset redis s).0 ≡ ok tt) × ((metrics redis (reset redis s).1).0 ≡ ok ([], [], 0, 0))
  unfolding reset
  reset-metrics s =
      let (r1, v1, m1) = server.set_lem "cache-hit-total" (number 0) none s refl in
      let s1 = (redis.set "cache-hit-total" (number 0) none s).1 in
      let (r2, v2, m2) = server.set_lem "cache-miss-total" (number 0) none s1 refl in
      let s2 = (redis.set "cache-miss-total" (number 0) none s1).1 in
      let hit = server.members s2 "cache-hit-keys" in
      let (r3, z3) = delete_all_lem hit_key hit s2 in
      let s3 = (delete_all redis hit_key hit s2).1 in
      let missed = server.members s3 "cache-miss-keys" in
      let (r4, z4) = delete_all_lem miss_key missed s3 in
      let s4 = (delete_all redis miss_key missed s3).1 in
      let (r5, v5, m5) = server.delete_lem "cache-hit-keys" s4 in
      let s5 = (redis.delete "cache-hit-keys" s4).1 in
      let (r6, v6, m6) = server.delete_lem "cache-miss-keys" s5 in
      let s6 = (redis.delete "cache-miss-keys" s5).1 in
      let hits : number_or_zero (server.view s6 "cache-hit-total") ≡ ok 0 =
        ap number_or_zero (v6 "cache-hit-total" ∙ v5 "cache-hit-total")
        ∙ z4 "cache-hit-total" (
            z3 "cache-hit-total"
              (ap number_or_zero (v2 "cache-hit-total" ∙ v1 "cache-hit-total"))) in
      let misses : number_or_zero (server.view s6 "cache-miss-total") ≡ ok 0 =
        ap number_or_zero (v6 "cache-miss-total" ∙ v5 "cache-miss-total")
        ∙ z4 "cache-miss-total"
            (z3 "cache-miss-total" (ap number_or_zero (v2 "cache-miss-total"))) in
      let no_hits : server.members s6 "cache-hit-keys" ≡ [] =
        m6 "cache-hit-keys" ∙ m5 "cache-hit-keys" in
      let no_misses : server.members s6 "cache-miss-keys" ≡ [] = m6 "cache-miss-keys" in
      rw
        (
          r1,
          r2,
          server.smembers_lem "cache-hit-keys" s2 refl,
          r3,
          server.smembers_lem "cache-miss-keys" s3 refl,
          r4,
          r5,
          r6,
        )
        (refl, metrics_empty s6 hits misses no_hits no_misses)
