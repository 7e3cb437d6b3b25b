-- ===== src/Py/Ops.antt =====
-- Indexing, `in`, iteration and assignment on values, with what Python raises.
use text.Mathlib.Text.{find?}
use slurm_web.Base.{
  ℤ, pos, String, Bool, true, false, List, [], ◌∷◌, any, map, get, has, put, keys, is_some, or_else,
}
use slurm_web.Py.Value.{
  Value, boolean, int, str, list, dict, items_of, fields_of, of_fields, chars, equals_str,
}
use slurm_web.Py.Error.{Exn, key_error, type_error, attribute_error}
use slurm_web.Py.Result.{Result, ok, raised, or_raise, ◌>>=◌}

-- v["k"]
unfoldable pub getitem : Value → String → Result Value
getitem (dict fs) k = or_raise (get (fields_of fs) k) (key_error k)
getitem _ k = raised type_error

-- v.get("k", default)
unfoldable pub get_default : Value → String → Value → Result Value
get_default (dict fs) k d = ok (or_else (get (fields_of fs) k) d)
get_default _ k d = raised attribute_error

-- v["k"] = x
unfoldable pub setitem : Value → String → Value → Result Value
setitem (dict fs) k x = ok (dict (of_fields (put (fields_of fs) k x)))
setitem _ k x = raised type_error

-- "k" in v
unfoldable pub contains : String → Value → Result Bool
contains k (list vs) = ok (any (λ v. equals_str v k) (items_of vs))
contains k (dict fs) = ok (has (fields_of fs) k)
contains k (str s) = ok (is_some (find? s k))
contains k _ = raised type_error

-- for x in v
unfoldable pub iterate : Value → Result (List Value)
iterate (list vs) = ok (items_of vs)
iterate (dict fs) = ok (map str (keys (fields_of fs)))
iterate (str s) = ok (chars s)
iterate _ = raised type_error

-- not len(v)
unfoldable pub is_empty : Value → Result Bool
is_empty v = do xs ← iterate v; ok (elim xs [ [] ↦ true | _ ↦ false ])

-- v[0]
unfoldable pub first : Value → Result Value
first (list vs) = elim (items_of vs) [ [] ↦ raised Exn.index_error | v ∷ rest ↦ ok v ]
first (dict fs) = raised (key_error "0")
first (str s) = elim (chars s) [ [] ↦ raised Exn.index_error | v ∷ rest ↦ ok v ]
first _ = raised type_error

-- the operand of `+=` on a number; a bool is an int
unfoldable pub as_int : Value → Result ℤ
as_int (int n) = ok n
as_int (boolean true) = ok (pos 1)
as_int (boolean false) = ok (pos 0)
as_int _ = raised type_error

-- the receiver of a `str` method
unfoldable pub as_str : Value → Result String
as_str (str s) = ok s
as_str _ = raised attribute_error
