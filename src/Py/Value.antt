-- ===== src/Py/Value.antt =====
-- The values of a parsed JSON document. Numbers are integers: slurmrestd's schemas give integers
-- for every number that the program computes with.
use Prim.Native.String.{[] as nil_str, ◌∷◌ as cons_str}
use slurm_web.Base.{
  ℤ, String, ◌≡◌, refl, ap, Bool, true, false, List, [], ◌∷◌, Dict, ◌==◌, eqb_ℤ, not,
}

mutual
  pub data Value : Type 0 where
    null : Value
    boolean : Bool → Value
    int : ℤ → Value
    str : String → Value
    list : Items → Value
    dict : Fields → Value

  pub data Items : Type 0 where
    nil : Items
    cons : Value → Items → Items

  pub data Fields : Type 0 where
    end : Fields
    field : String → Value → Fields → Fields

unfoldable pub items_of : Items → List Value
items_of nil = []
items_of (cons v vs) = v ∷ items_of vs

unfoldable pub of_items : List Value → Items
of_items [] = nil
of_items (v ∷ vs) = cons v (of_items vs)

unfoldable pub fields_of : Fields → Dict Value
fields_of end = []
fields_of (field k v fs) = (k, v) ∷ fields_of fs

unfoldable pub of_fields : Dict Value → Fields
of_fields [] = end
of_fields ((k, v) ∷ d) = field k v (of_fields d)

pub items_of-of_items : (vs : List Value) → items_of (of_items vs) ≡ vs
unfolding items_of of_items
items_of-of_items [] = refl
items_of-of_items (v ∷ vs) = ap (◌∷◌ v) (items_of-of_items vs)

pub fields_of-of_fields : (d : Dict Value) → fields_of (of_fields d) ≡ d
unfolding fields_of of_fields
fields_of-of_fields [] = refl
fields_of-of_fields ((k, v) ∷ d) = ap (◌∷◌ (k, v)) (fields_of-of_fields d)

-- The characters of a text, which iterating over it gives.
unfoldable pub chars : String → List Value
chars nil_str = []
chars (cons_str c s) = str (cons_str c nil_str) ∷ chars s

-- bool(v)
unfoldable pub truthy : Value → Bool
truthy null = false
truthy (boolean b) = b
truthy (int n) = not (eqb_ℤ n (ℤ.pos 0))
truthy (str s) = not (s == "")
truthy (list nil) = false
truthy (list (cons v vs)) = true
truthy (dict end) = false
truthy (dict (field k v fs)) = true

-- v == "k"
unfoldable pub equals_str : Value → String → Bool
equals_str (str s) k = s == k
equals_str _ k = false
