-- ===== src/Py/Equal.antt =====
-- `==` on values, as Python compares them: a bool is an int, and a dictionary has no order.
use slurm_web.Base.{
  ℕ, ℤ, pos, eqb, eqb_ℤ, Bool, true, false, Option, none, some, List, [], ◌∷◌, ◌==◌, ◌&&◌, ◌+◌, get,
}
use slurm_web.Py.Value.{
  Value, null, boolean, int, str, list, dict, Items, nil, cons, Fields, end, field, fields_of,
}

abbrev pub to_int : Bool → ℤ
to_int true = pos 1
to_int false = pos 0

abbrev pub count_fields : Fields → ℕ
count_fields end = 0
count_fields (field k v fs) = let rest = count_fields fs in rest + 1

unfoldable mutual
  -- v == w
  pub same_value : Value → Value → Bool
  same_value null null = true
  same_value (boolean a) (boolean b) = eqb_ℤ (to_int a) (to_int b)
  same_value (boolean a) (int n) = eqb_ℤ (to_int a) n
  same_value (int n) (boolean b) = eqb_ℤ n (to_int b)
  same_value (int m) (int n) = eqb_ℤ m n
  same_value (str s) (str t) = s == t
  same_value (list vs) (list ws) = same_items vs ws
  same_value (dict fs) (dict gs) = eqb (count_fields fs) (count_fields gs) && same_fields fs gs
  same_value _ _ = false

  pub same_items : Items → Items → Bool
  same_items nil nil = true
  same_items (cons v vs) (cons w ws) = same_value v w && same_items vs ws
  same_items _ _ = false

  -- Every field of the first is one of the second.
  pub same_fields : Fields → Fields → Bool
  same_fields end gs = true
  same_fields (field k v fs) gs =
      (elim (get (fields_of gs) k) [ none ↦ false | some w ↦ same_value v w ]) && same_fields fs gs

-- v == n
abbrev pub equals_int : Value → ℕ → Bool
equals_int v n = same_value v (int (pos n))

abbrev pub same_list {ℓ} : {A : Type ℓ} → (A → A → Bool) → List A → List A → Bool
same_list same [] [] = true
same_list same (x ∷ xs) (y ∷ ys) = same x y && same_list same xs ys
same_list same _ _ = false

abbrev pub same_option {ℓ} : {A : Type ℓ} → (A → A → Bool) → Option A → Option A → Bool
same_option same none none = true
same_option same (some x) (some y) = same x y
same_option same _ _ = false
