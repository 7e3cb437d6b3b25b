-- ===== src/Agent/Logs/Polling.antt =====
-- A client that follows a growing output file by the offsets of the chunks (slurmweb/views/agent.py).
use slurm_web.Base.{
  ℕ, zero, suc, ◌+◌, ◌-◌, ◌≤◌, ◌<◌, String, ◌≡◌, refl, Bool, true, false, List, [], ◌∷◌, ◌++◌,
  arith, length, take, drop, ltb, min, Bool-cases, inl, inr, sym, any,
}
use slurm_web.Py.Result.{ok, ok-injective}
use slurm_web.Agent.Logs.{Files, Parts, read_from, managed_job_log, is_under}

pub length-take : {A : Type 0} (n : ℕ) (xs : List A) → length (take n xs) ≡ min n (length xs)
length-take zero xs = omega arith
length-take (suc n) [] = omega arith
length-take (suc n) (x ∷ xs) = omega (arith, length-take n xs)

pub length-drop : {A : Type 0} (n : ℕ) (xs : List A) → length (drop n xs) ≡ length xs - n
length-drop zero xs = omega arith
length-drop (suc n) [] = omega arith
length-drop (suc n) (x ∷ xs) = omega (arith, length-drop n xs)

-- The file, what the client has received of it, and the offset of its next request.
pub record Following : Type 0 where
  pub content : List ℕ
  pub received : List ℕ
  pub offset : ℕ

-- The job writes to its file, or the client asks for a chunk, in any order.
pub data Step : Following → Following → Type 0 where
  written : (f : Following) (more : List ℕ) → Step f (record f { content = f.content ++ more })
  polled :
      (f : Following) (path : String) (limit : ℕ) (running : Bool)
      → Step f (record f {
        received = f.received ++ (read_from path f.content f.offset limit running).chunk;
        offset = (read_from path f.content f.offset limit running).next_offset;
      })

pub data Steps : Following → Following → Type 0 where
  start : {f : Following} → Steps f f
  after : {f g h : Following} → Steps f g → Step g h → Steps f h

-- The client has the file up to its offset.
pub record IsPrefix (f : Following) : Type 0 where
  pub within : f.offset ≤ length f.content
  pub same : f.received ≡ take f.offset f.content

-- From an offset within the file a chunk goes on by the limit, as far as the file goes; from an
-- offset behind the end it starts again from the beginning, and says so.
pub read_from-next_offset :
    (path : String) (content : List ℕ) (offset limit : ℕ) (running : Bool)
    → (offset ≤ length content
        → ((read_from path content offset limit running).rotated ≡ false)
          × ((read_from path content offset limit running).next_offset
              ≡ min (offset + limit) (length content)))
      × (length content < offset
          → ((read_from path content offset limit running).rotated ≡ true)
            × ((read_from path content offset limit running).offset ≡ 0)
            × ((read_from path content offset limit running).chunk ≡ take limit content))
unfolding read_from
read_from-next_offset path content offset limit running = (
  λ h.
      let here : ltb (length content) offset ≡ false = ground arith in
      rw here
        (refl, omega (arith, length-take limit (drop offset content), length-drop offset content)),
  λ h. let there : ltb (length content) offset ≡ true = ground arith in rw there (refl, refl, refl),
)

-- The output file that a path is resolved to, where that is not refused, lies under one of the
-- roots.
pub managed_job_log-is_under :
    (files : Files) (roots : List Parts) (path : String) (output : Parts)
    → managed_job_log files roots path ≡ ok output
    → (output ≡ files.resolve path) × (any (λ root. is_under root output) roots ≡ true)
unfolding managed_job_log
managed_job_log-is_under files roots path output h =
    elim (Bool-cases (any (λ root. is_under root (files.resolve path)) roots)) [
      | inl e ↦ let same = ok-injective (rw e at h) in (sym same, rw (← same) e)
      | inr e ↦ let h1 = rw e at h in absurd (cc)
    ]
