-- ===== src/Agent/Excerpt/Shown.antt =====
-- What an excerpt shows of a job's output (slurmweb/views/agent.py).
use slurm_web.Base.{
  ℕ, zero, suc, ◌+◌, ◌-◌, ◌≤◌, ◌<◌, String, ◌≡◌, refl, Bool, true, false, Option, none, some, List,
  [], ◌∷◌, ◌⊎◌, inl, inr, ◌↔◌, arith, length, take, drop, eqb, min, Text, sym, subst, eqb_iff,
  Bool-cases, if◌then◌else◌, or_else, any,
}
use slurm_web.Agent.Logs.Polling.{length-take, length-drop}
use slurm_web.Agent.Excerpt.{
  find_traceback, last_error, hit_of, Excerpt, excerpt_at, excerpt_of, excerpt_lines, is_traceback,
  line_at,
}

-- An option that a test chooses.
chosen :
    {x k : ℕ} {o : Option ℕ} (b : Bool)
    → (if b then some x else o) ≡ some k
    → ((b ≡ true) × (x ≡ k)) ⊎ ((b ≡ false) × (o ≡ some k))
chosen true h = inl (refl, cc)
chosen false h = inr (refl, h)

chosen_none :
    (x : ℕ) {o : Option ℕ} (b : Bool) → (if b then some x else o) ≡ none → (b ≡ false) × (o ≡ none)
chosen_none x true h = cc
chosen_none x false h = (refl, h)

-- The start of a traceback that the search finds is before its line, and near.
find_traceback_bounds :
    (lines : List Text) (index steps k : ℕ)
    → find_traceback lines index steps ≡ some k
    → (k < index) × (index ≤ k + steps) × (is_traceback (line_at lines k) ≡ true)
unfolding find_traceback
find_traceback_bounds lines zero steps k h = cc
find_traceback_bounds lines (suc back) zero k h = cc
find_traceback_bounds lines (suc back) (suc steps) k h =
    elim (chosen (is_traceback (line_at lines back)) h) [
      | inl (e, x) ↦ (
        omega (arith, x),
        omega (arith, x),
        subst (λ i. is_traceback (line_at lines i) ≡ true) x e,
      )
      | inr (e, h') ↦
          let (a, b, c) = find_traceback_bounds lines back steps k h' in
          (omega (arith, a), omega (arith, b), c)
    ]

-- What holds at an index and between it and a lower one holds below the next one.
extend :
    (P : ℕ → Type 0) (k index : ℕ)
    → P index
    → ((j : ℕ) → k < j → j < index → P j)
    → (j : ℕ) → k < j
    → j < suc index
    → P j
extend P k index p h j l r = elim (Bool-cases (eqb j index)) [
  | inl e ↦ subst P (sym ((eqb_iff j index).0 e)) p
  | inr e ↦ h j l (ground (arith, e, r))
]

-- The line that the search from the end finds is the last one that the pattern matches.
last_error_last :
    (is_error : Text → Bool) (lines : List Text) (n k : ℕ)
    → last_error is_error lines n ≡ some k
    → (k < n)
      × (is_error (line_at lines k) ≡ true)
      × ((j : ℕ) → k < j → j < n → is_error (line_at lines j) ≡ false)
unfolding last_error
last_error_last is_error lines zero k h = cc
last_error_last is_error lines (suc index) k h = elim (chosen (is_error (line_at lines index)) h) [
  | inl (e, x) ↦ (
    omega (arith, x),
    subst (λ i. is_error (line_at lines i) ≡ true) x e,
    λ j l r. absurd (omega (arith, x, l, r)),
  )
  | inr (e, h') ↦
      let (a, b, c) = last_error_last is_error lines index k h' in
      (omega (arith, a), b, extend (λ i. is_error (line_at lines i) ≡ false) k index e c)
]

last_error-none :
    (is_error : Text → Bool) (lines : List Text) (n : ℕ)
    → last_error is_error lines n ≡ none
    → (j : ℕ) → j < n
    → is_error (line_at lines j) ≡ false
unfolding last_error
last_error-none is_error lines zero h j r = absurd (omega (arith, r))
last_error-none is_error lines (suc index) h j r =
    let (e, h') = chosen_none index (is_error (line_at lines index)) h in
    elim (Bool-cases (eqb j index)) [
      | inl e' ↦ subst (λ i. is_error (line_at lines i) ≡ false) (sym ((eqb_iff j index).0 e')) e
      | inr e' ↦ last_error-none is_error lines index h' j (ground (arith, e', r))
    ]

-- A test that fails at every index fails.
any-false :
    (p : Text → Bool) (lines : List Text)
    → ((j : ℕ) → j < length lines → p (line_at lines j) ≡ false)
    → any p lines ≡ false
any-false p [] h = refl
any-false p (l ∷ lines) h =
    rw (h 0 (omega arith)) (any-false p lines (λ j r. h (suc j) (omega (arith, r))))

any-drop :
    (p : Text → Bool) (n : ℕ) (lines : List Text)
    → ((j : ℕ) → n < suc j → j < length lines → p (line_at lines j) ≡ false)
    → any p (drop n lines) ≡ false
any-drop p zero lines h = any-false p lines (λ j r. h j (omega arith) r)
any-drop p (suc n) [] h = refl
any-drop p (suc n) (l ∷ lines) h =
    any-drop p n lines (λ j m r. h (suc j) (omega (arith, m)) (omega (arith, r)))

-- Where an excerpt starts: at the last line that the pattern matches, or at the start of a traceback
-- of at most 59 lines above that line.
pub Hit : (Text → Bool) → List Text → Option ℕ → Type 0
Hit is_error lines none = any is_error lines ≡ false
Hit is_error lines (some hit) =
    (index : ℕ) × (index < length lines)
    × (is_error (line_at lines index) ≡ true)
    × (any is_error (drop (suc index) lines) ≡ false)
    × ((hit ≡ index)
        ⊎ ((hit < index) × (index ≤ hit + 59) × (is_traceback (line_at lines hit) ≡ true)))

started :
    (lines : List Text) (index : ℕ) (o : Option ℕ)
    → find_traceback lines index 59 ≡ o
    → (or_else o index ≡ index)
      ⊎ ((or_else o index < index)
          × (index ≤ or_else o index + 59)
          × (is_traceback (line_at lines (or_else o index)) ≡ true))
started lines index none h = inl refl
started lines index (some k) h = inr (find_traceback_bounds lines index 59 k h)

hit_of-Hit_from :
    (is_error : Text → Bool) (lines : List Text) (o : Option ℕ)
    → last_error is_error lines (length lines) ≡ o
    → Hit is_error lines (hit_of lines o)
unfolding hit_of Hit
hit_of-Hit_from is_error lines none h =
    any-false is_error lines (last_error-none is_error lines (length lines) h)
hit_of-Hit_from is_error lines (some index) h =
    let (a, b, c) = last_error_last is_error lines (length lines) index h in
    (
      index,
      a,
      b,
      any-drop is_error (suc index) lines (λ j m. c j (omega (arith, m))),
      started lines index (find_traceback lines index 59) refl,
    )

-- An excerpt starts at the last line that the pattern of errors matches, or at the start of a
-- traceback of at most 59 lines above that line; there is no such line exactly if no line matches.
pub hit_of-Hit :
    (is_error : Text → Bool) (lines : List Text)
    → Hit is_error lines (hit_of lines (last_error is_error lines (length lines)))
hit_of-Hit is_error lines =
    hit_of-Hit_from is_error lines (last_error is_error lines (length lines)) refl

-- The numbers of an excerpt are those of its lines.
pub Shown : ℕ → ℕ → List Text → Excerpt → Type 0
Shown max_lines head_lines lines e =
    (head_lines < e.line)
    × (e.line ≤ e.total_lines)
    × (e.total_lines ≡ head_lines + length lines)
    × (e.lines ≡ take max_lines (drop (e.line - suc head_lines) lines))
    × (length e.lines ≡ min max_lines (suc e.total_lines - e.line))
    × ((e.truncated ≡ true) ↔ (e.line + length e.lines ≤ e.total_lines))

excerpt_at-Shown :
    (stream path : String) (max_lines head_lines : ℕ) (lines : List Text) (hit : ℕ) (matched : Bool)
    → hit < length lines
    → Shown max_lines head_lines lines
        (excerpt_at stream path max_lines head_lines lines hit matched)
unfolding excerpt_at Shown
excerpt_at-Shown stream path max_lines head_lines lines hit matched h =
    let n = length-take max_lines (drop hit lines) in
    let d = length-drop hit lines in
    let e : head_lines + hit + 1 - suc head_lines ≡ hit = omega arith in
    (
      omega arith,
      omega (arith, h),
      refl,
      rw e refl,
      omega (arith, n, d, h),
      ground (arith, n, d, h),
    )

Hit-in :
    (is_error : Text → Bool) (lines : List Text) (hit : ℕ)
    → Hit is_error lines (some hit)
    → hit < length lines
unfolding Hit
Hit-in is_error lines hit (index, a, b, c, inl e) = omega (arith, a, e)
Hit-in is_error lines hit (index, a, b, c, inr (l, m, t)) = omega (arith, a, l)

excerpt_of-Shown :
    (is_error : Text → Bool) (stream path : String) (max_lines head_lines : ℕ) (l : Text)
    (lines : List Text) (hit : Option ℕ)
    → Hit is_error (l ∷ lines) hit
    → Shown max_lines head_lines
        (l ∷ lines)
        (excerpt_of stream path max_lines head_lines (l ∷ lines) hit)
unfolding excerpt_of
excerpt_of-Shown is_error stream path max_lines head_lines l lines none h =
    excerpt_at-Shown stream path max_lines head_lines (l ∷ lines) (length (l ∷ lines) - 12) false
      (omega arith)
excerpt_of-Shown is_error stream path max_lines head_lines l lines (some hit) h =
    excerpt_at-Shown stream path max_lines head_lines (l ∷ lines) hit true
      (Hit-in is_error (l ∷ lines) hit h)

-- An output of one line or more has an excerpt. Its line is one of the output, the lines that it
-- shows are those that start there, at most as many as asked for, and it is marked as truncated
-- exactly if lines follow that it does not show.
pub excerpt_lines-Shown :
    (is_error : Text → Bool) (stream path : String) (max_lines head_lines : ℕ) (l : Text)
    (lines : List Text)
    → (e : Excerpt) × (excerpt_lines is_error stream path max_lines head_lines (l ∷ lines) ≡ some e)
      × Shown max_lines head_lines (l ∷ lines) e
unfolding excerpt_lines
excerpt_lines-Shown is_error stream path max_lines head_lines l lines = (
  _,
  refl,
  excerpt_of-Shown is_error stream path max_lines head_lines l lines
      (hit_of (l ∷ lines) (last_error is_error (l ∷ lines) (length (l ∷ lines))))
      (hit_of-Hit is_error (l ∷ lines)),
)
