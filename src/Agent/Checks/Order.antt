-- ===== src/Agent/Checks/Order.antt =====
-- The order of the events of a job, and which of them are given (slurmweb/views/agent.py).
use slurm_web.Base.{
  ℕ, ◌≡◌, List, [], ◌∷◌, ℤ, ltb_ℤ, ◌≤ℤ◌, arith, All, String, Option, if◌then◌else◌, Bool-cases, inl,
  inr, subst,
}
use mathlib.Core.List.{Perm}
use mathlib.Core.List.Perm
use slurm_web.Py.Value.{Value}
use slurm_web.Py.Result.{ok, ok-injective, >>=-eq-ok}
use slurm_web.Agent.Checks.{
  Event, insert_event, sort_events, max_seq, last_seq, checks_snapshot, Snapshot, collect_latest,
  check_all,
}

abbrev pub AtLeast : ℤ → List Event → Type 0
AtLeast n = All (λ e. n ≤ℤ e.seq)

abbrev pub IsSorted : List Event → Type 0
IsSorted [] = Unit {0}
IsSorted (e ∷ es) = AtLeast e.seq es × IsSorted es

AtLeast-below : (m n : ℤ) (es : List Event) → m ≤ℤ n → AtLeast n es → AtLeast m es
AtLeast-below m n [] h a = tt
AtLeast-below m n (e ∷ es) h (b, a) = (omega (arith, h, b), AtLeast-below m n es h a)

insert_event-AtLeast :
    (n : ℤ) (e : Event) (es : List Event)
    → n ≤ℤ e.seq
    → AtLeast n es
    → AtLeast n (insert_event e es)
unfolding insert_event
insert_event-AtLeast n e [] h a = (h, tt)
insert_event-AtLeast n e (f ∷ es) h (b, a) = elim (Bool-cases (ltb_ℤ f.seq e.seq)) [
  | inl t ↦ rw t (b, insert_event-AtLeast n e es h a)
  | inr t ↦ rw t (h, (b, a))
]

insert_event-IsSorted : (e : Event) (es : List Event) → IsSorted es → IsSorted (insert_event e es)
unfolding insert_event
insert_event-IsSorted e [] s = (tt, tt)
insert_event-IsSorted e (f ∷ es) (a, s) = elim (Bool-cases (ltb_ℤ f.seq e.seq)) [
  | inl t ↦
      rw t (insert_event-AtLeast f.seq e es (ground (arith, t)) a, insert_event-IsSorted e es s)
  | inr t ↦
      let h : e.seq ≤ℤ f.seq = ground (arith, t) in
      rw t ((h, AtLeast-below e.seq f.seq es h a), (a, s))
]

sort_events-IsSorted : (es : List Event) → IsSorted (sort_events es)
unfolding sort_events
sort_events-IsSorted [] = tt
sort_events-IsSorted (e ∷ es) = insert_event-IsSorted e (sort_events es) (sort_events-IsSorted es)

max_seq-AtLeast :
    (n : ℤ) (es : List Event) → (n ≤ℤ max_seq n es) × All (λ e. e.seq ≤ℤ max_seq n es) es
unfolding max_seq
max_seq-AtLeast n [] = (omega arith, tt)
max_seq-AtLeast n (e ∷ es) =
    let (h, a) = max_seq-AtLeast (if ltb_ℤ n e.seq then e.seq else n) es in
    (ground (arith, h), (ground (arith, h), a))

last_seq-AtLeast : (es : List Event) → All (λ e. e.seq ≤ℤ last_seq es) es
unfolding last_seq
last_seq-AtLeast [] = tt
last_seq-AtLeast (e ∷ es) = max_seq-AtLeast e.seq es

-- The cursor of a snapshot is at least the number of each event that it was made from, and its
-- checks are in the order of their numbers.
pub checks_snapshot_cursor :
    (parse_time : String → Option ℤ) (job now : ℕ) (es : List Event) (s : Snapshot)
    → checks_snapshot parse_time job es now ≡ ok s
    → All (λ e. e.seq ≤ℤ s.cursor) es × IsSorted s.checks
unfolding checks_snapshot
checks_snapshot_cursor parse_time job now es s h =
    let (latest, a, h') = >>=-eq-ok (collect_latest [] es) _ h in
    let (checked, b, h'') = >>=-eq-ok (check_all parse_time now latest) _ h' in
    let e = ok-injective h'' in
    (
      subst (λ (t : Snapshot). All (λ e. e.seq ≤ℤ t.cursor) es) e (last_seq-AtLeast es),
      subst (λ (t : Snapshot). IsSorted t.checks) e (sort_events-IsSorted checked),
    )
