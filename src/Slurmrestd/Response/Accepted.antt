-- ===== src/Slurmrestd/Response/Accepted.antt =====
-- Which responses are accepted, and what the others raise (slurmweb/slurmrestd/__init__.py).
use slurm_web.Base.{
  String, ◌≡◌, ◌↔◌, ◌⊎◌, inl, inr, refl, Bool, true, false, Option, none, some, arith, eq_iff, ap,
  ◌∙◌,
}
use slurm_web.Py.Value.{Value}
use slurm_web.Py.Error.{value_error}
use slurm_web.Py.Result.{ok, or_raise, >>=-eq-ok}
use slurm_web.Py.Ops.{getitem, contains, is_empty, first}
use slurm_web.Slurmrestd.Response.{
  Response, is_unauthenticated, is_json, validate_status, validate_json, validate_response,
  read_result, read_response, check_errors, check_warnings, reported,
}

-- The document reports no error.
abbrev pub WithoutErrors : Value → Type 0
WithoutErrors v = (x : Value) × (getitem v "errors" ≡ ok x) × (is_empty x ≡ ok true)

-- The document has no warnings, or warnings with a length.
abbrev pub Warned : Value → Type 0
Warned v =
    (contains "warnings" v ≡ ok false)
    ⊎ ((contains "warnings" v ≡ ok true)
        × ((x : Value) × (b : Bool) × (getitem v "warnings" ≡ ok x) × (is_empty x ≡ ok b)))

-- A response that the client may use: it is no authentication failure, the resource is there unless
-- that does not matter, and it is a JSON object without errors, whose warnings have a length.
pub record Accepts (r : Response) (ignore : Bool) (v : Value) : Type 0 where
  pub authenticated : is_unauthenticated r ≡ false
  pub found : r.status_code ≡ 404 → ignore ≡ true
  pub typed : r.content_type ≡ some "application/json"
  pub body : r.json ≡ some v
  pub without_errors : WithoutErrors v
  pub warned : Warned v

Validated : Response → Bool → Type 0
Validated r ignore =
    (is_unauthenticated r ≡ false)
    × (r.status_code ≡ 404 → ignore ≡ true)
    × (r.content_type ≡ some "application/json")

is_json_iff : (o : Option String) → (is_json o ≡ true) ↔ (o ≡ some "application/json")
is_json_iff none = ground arith
is_json_iff (some s) = ground (arith, eq_iff s "application/json")

validate_json-ok :
    (r : Response) → validate_json r ≡ ok tt → r.content_type ≡ some "application/json"
unfolding validate_json
validate_json-ok r h = (is_json_iff r.content_type).0 (ground arith)

validate_status-ok :
    (r : Response) (ignore : Bool)
    → validate_status r ignore ≡ ok tt
    → (is_unauthenticated r ≡ false) × (r.status_code ≡ 404 → ignore ≡ true)
unfolding validate_status
validate_status-ok r ignore h = ground arith

validate_response-ok :
    (r : Response) (ignore : Bool) {u : Unit {0}}
    → validate_response r ignore ≡ ok u
    → Validated r ignore
unfolding validate_response Validated
validate_response-ok r ignore h =
    let (u1, e, h1) = >>=-eq-ok (validate_status r ignore) _ h in
    let (a, f) = validate_status-ok r ignore e in (a, f, validate_json-ok r h1)

check_errors-ok : (x : Value) (b : Bool) {u : Unit {0}} → check_errors x b ≡ ok u → b ≡ true
unfolding check_errors
check_errors-ok x true h = refl
check_errors-ok x false h =
    let (y, e, h1) = >>=-eq-ok (first x) _ h in let (z, e1, h2) = >>=-eq-ok (reported y) _ h1 in cc

check_warnings-ok :
    (v : Value) (w : Bool) {u : Unit {0}}
    → check_warnings v w ≡ ok u
    → contains "warnings" v ≡ ok w
    → Warned v
unfolding check_warnings
check_warnings-ok v false h c = inl c
check_warnings-ok v true h c =
    let (x, e, h1) = >>=-eq-ok (getitem v "warnings") _ h in
    let (b, e1, h2) = >>=-eq-ok (is_empty x) _ h1 in inr (c, (x, b, e, e1))

read_result-ok : (v v' : Value) → read_result v ≡ ok v' → (v ≡ v') × WithoutErrors v × Warned v
unfolding read_result
read_result-ok v v' h =
    let (x, e1, h1) = >>=-eq-ok (getitem v "errors") _ h in
    let (b, e2, h2) = >>=-eq-ok (is_empty x) _ h1 in
    let (u, e3, h3) = >>=-eq-ok (check_errors x b) _ h2 in
    let (w, e4, h4) = >>=-eq-ok (contains "warnings" v) _ h3 in
    let (u2, e5, h5) = >>=-eq-ok (check_warnings v w) _ h4 in
    (ground arith, (x, e1, e2 ∙ ap ok (check_errors-ok x b e3)), check_warnings-ok v w e5 e4)

accepted :
    (r : Response) (ignore : Bool) (v : Value) → read_response r ignore ≡ ok v → Accepts r ignore v
unfolding read_response Validated
accepted r ignore v h =
    let (u, e, h1) = >>=-eq-ok (validate_response r ignore) _ h in
    let (x, e1, h2) = >>=-eq-ok (or_raise r.json value_error) _ h1 in
    let (same, clean, warned) = read_result-ok x v h2 in
    let (a, f, t) = validate_response-ok r ignore e in
    record {
      authenticated = a;
      found = f;
      typed = t;
      body = ground arith;
      without_errors = rw (← same) clean;
      warned = rw (← same) warned;
    }

Warned-read :
    (v : Value)
    → Warned v
    → (w : Bool) × (contains "warnings" v ≡ ok w) × (check_warnings v w ≡ ok tt)
unfolding check_warnings
Warned-read v (inl e) = (false, e, refl)
Warned-read v (inr (e, (x, b, e1, e2))) = (true, e, rw (e1, e2))

validates :
    (r : Response) (ignore : Bool)
    → is_unauthenticated r ≡ false
    → (r.status_code ≡ 404 → ignore ≡ true)
    → r.content_type ≡ some "application/json"
    → validate_response r ignore ≡ ok tt
unfolding validate_response validate_status validate_json
validates r ignore a f t =
    let j : is_json r.content_type ≡ true = (is_json_iff r.content_type).1 t in ground arith

accepts :
    (r : Response) (ignore : Bool) (v : Value) → Accepts r ignore v → read_response r ignore ≡ ok v
unfolding read_response
accepts r ignore v a =
    let (x, e, clean) = a.without_errors in
    let (w, e1, c) = Warned-read v a.warned in
    rw (validates r ignore a.authenticated a.found a.typed, a.body, e, clean, e1, c)

-- The client takes a document from a response exactly if it is acceptable: no authentication
-- failure, no missing resource unless that does not matter, JSON, without errors and with warnings,
-- if any, that have a length.
pub read_response-Accepts :
    (r : Response) (ignore : Bool) (v : Value)
    → (read_response r ignore ≡ ok v) ↔ Accepts r ignore v
read_response-Accepts r ignore v = (accepted r ignore v, accepts r ignore v)
