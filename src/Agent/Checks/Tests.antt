-- ===== src/Agent/Checks/Tests.antt =====
-- Two files with three events of a job and one of another.
use slurm_web.Base.{ℕ, Bool, Option, none, some, List, [], ◌∷◌, pos, if◌then◌else◌, eqb}
use slurm_web.Py.Value.{Value, int, dict, field, end}
use slurm_web.Agent.Checks.{Event}

abbrev fields : ℕ → ℕ → Value
fields job n = dict (field "job_id" (int (pos job)) (field "seq" (int (pos n)) end))

abbrev event : ℕ → Event
event n = record { seq = pos n; fields = fields 7 n }

-- a line is a byte, which is its number; that of 99 is of another job, and 33 is no JSON
abbrev load : List ℕ → Option Value
load [] = none
load (b ∷ bs) = if eqb b 33 then none else if eqb b 99 then some (fields 8 1) else some (fields 7 b)

abbrev files : List (Option (List ℕ))
files = some (5 ∷ 10 ∷ 99 ∷ 10 ∷ []) ∷ none ∷ some (33 ∷ 10 ∷ 4 ∷ 10 ∷ 3 ∷ []) ∷ []
