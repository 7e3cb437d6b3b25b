-- ===== src/Agent/Excerpt/Lines.antt =====
-- The numbers of the lines before the end of a file (slurmweb/views/agent.py).
use slurm_web.Base.{
  ℕ, zero, suc, ◌+◌, ◌-◌, ◌≤◌, ◌≡◌, refl, false, List, [], ◌∷◌, ◌++◌, inl, inr, arith, length, take,
  drop, eqb, ap, sym, ◌∙◌, Bool-cases, if◌then◌else◌, append_assoc,
}
use slurm_web.Agent.Logs.Polling.{length-drop}
use slurm_web.Agent.Excerpt.{
  count_lines, first_line, after_line, ends_line, Tail, tail_from, read_tail,
}

count_lines-append : (xs ys : List ℕ) → count_lines (xs ++ ys) ≡ count_lines xs + count_lines ys
count_lines-append [] ys = omega arith
count_lines-append (x ∷ xs) ys =
    let h = count_lines-append xs ys in
    elim (Bool-cases (eqb x 10)) [ inl e ↦ rw e (omega (arith, h)) | inr e ↦ rw e h ]

first_line-after_line : (bs : List ℕ) → first_line bs ++ after_line bs ≡ bs
first_line-after_line [] = refl
first_line-after_line (b ∷ bs) =
    let h = first_line-after_line bs in
    elim (Bool-cases (eqb b 10)) [ inl e ↦ rw e refl | inr e ↦ rw e (ap (◌∷◌ b) h) ]

length-after_line : (bs : List ℕ) → length (after_line bs) ≤ length bs
length-after_line [] = omega arith
length-after_line (b ∷ bs) =
    let h = length-after_line bs in
    elim (Bool-cases (eqb b 10)) [ inl e ↦ rw e (omega arith) | inr e ↦ rw e (omega (arith, h)) ]

take-drop : (n : ℕ) (bs : List ℕ) → take n bs ++ drop n bs ≡ bs
take-drop zero bs = refl
take-drop (suc n) [] = refl
take-drop (suc n) (b ∷ bs) = ap (◌∷◌ b) (take-drop n bs)

ends_line-cons : (b : ℕ) (bs : List ℕ) → eqb b 10 ≡ false → ends_line (b ∷ bs) ≡ ends_line bs
ends_line-cons b [] e = e
ends_line-cons b (d ∷ bs) e = refl

-- A line ends in the only end of line that it has.
count_lines-first_line :
    (bs : List ℕ) → count_lines (first_line bs) ≡ (if ends_line (first_line bs) then 1 else 0)
count_lines-first_line [] = refl
count_lines-first_line (b ∷ bs) =
    let h = count_lines-first_line bs in
    elim (Bool-cases (eqb b 10)) [
      | inl e ↦ rw e (rw e refl)
      | inr e ↦ rw e (rw e (rw (ends_line-cons b (first_line bs) e) h))
    ]

-- What stands before the end of a file that is read.
pub Split : ℕ → List ℕ → Tail → Type 0
Split tail_bytes content end =
    (skipped : List ℕ) × (content ≡ skipped ++ end.tail)
    × (end.head_lines ≡ count_lines skipped)
    × (length end.tail ≤ tail_bytes)

tail_from-Split :
    (tail_bytes n : ℕ) (content : List ℕ)
    → length content ≤ n + tail_bytes
    → Split tail_bytes content (tail_from n content)
unfolding Split tail_from
tail_from-Split tail_bytes zero content h = ([], refl, refl, omega (arith, h))
tail_from-Split tail_bytes (suc n) content h =
    let rest = drop (suc n) content in
    let c = count_lines-append (take (suc n) content) (first_line rest) in
    let f = count_lines-first_line rest in
    (
      take (suc n) content ++ first_line rest,
      sym (
          append_assoc (take (suc n) content) (first_line rest) (after_line rest)
          ∙ ap (λ xs. take (suc n) content ++ xs) (first_line-after_line rest)
          ∙ take-drop (suc n) content),
      sym (c ∙ ap (λ k. count_lines (take (suc n) content) + k) f),
      omega (arith, h, length-after_line rest, length-drop (suc n) content),
    )

-- The end of a file that is searched is a suffix of the file within the bound, and the lines that are
-- counted before it are those of the bytes before it, so that line numbers are those of the file.
pub read_tail-Split :
    (tail_bytes : ℕ) (content : List ℕ) → Split tail_bytes content (read_tail tail_bytes content)
unfolding read_tail
read_tail-Split tail_bytes content =
    tail_from-Split tail_bytes (length content - tail_bytes) content (omega arith)
