-- ===== src/Slurmrestd/Response.antt =====
-- slurmweb/slurmrestd/__init__.py: how a response of slurmrestd is checked and read.
pub mod Accepted
pub mod Tests
use slurm_web.Base.{
  ℕ, String, ◌≡◌, Bool, true, false, Option, none, some, List, [], ◌∷◌, ◌==◌, ◌&&◌, ◌||◌, not,
  if◌then◌else◌, eqb, ◌^^◌, codes, same, strip, ℤ, negsuc,
}
use slurm_web.Py.Value.{Value, str, int}
use slurm_web.Py.Error.{
  Exn, authentication_error, not_found, invalid_response, internal_error, value_error,
}
use slurm_web.Py.Result.{Result, ok, raised, or_raise, ◌>>=◌}
use slurm_web.Py.Ops.{getitem, get_default, contains, is_empty, first}

pub record Response : Type 0 where
  pub status_code : ℕ
  pub url : String
  pub text : String
  pub content_type : Option String
  -- response.json(): `none` is its ValueError
  pub json : Option Value

-- The workaround for Slurm 25.11.0 is part of the test.
unfoldable pub is_unauthenticated : Response → Bool
is_unauthenticated response =
    eqb response.status_code 401
    || eqb response.status_code 500
      && same (strip (codes response.text)) (codes "Authentication does not apply to request")

-- _validate_status
unfoldable pub validate_status : Response → Bool → Result (Unit {0})
unfolding is_unauthenticated
validate_status response ignore_notfound =
    if is_unauthenticated response
    then raised (authentication_error response.url)
    else if not ignore_notfound && eqb response.status_code 404
    then raised (not_found response.url)
    else ok tt

abbrev shown : Option String → String
shown none = "None"
shown (some s) = s

-- content_type != "application/json"
abbrev pub is_json : Option String → Bool
is_json none = false
is_json (some s) = s == "application/json"

-- _validate_json
unfoldable pub validate_json : Response → Result (Unit {0})
validate_json response =
    if is_json response.content_type
    then ok tt
    else raised (
        invalid_response (
          "Unsupported Content-Type for slurmrestd response "
          ^^ (response.url ^^ (": " ^^ shown response.content_type))))

-- _validate_response
unfoldable pub validate_response : Response → Bool → Result (Unit {0})
unfolding validate_status validate_json
validate_response response ignore_notfound = do
  _ ← validate_status response ignore_notfound
  validate_json response

-- the error that the first entry of `errors` describes
unfoldable pub reported : Value → Result Exn
reported error = do
  message ← get_default error "error" (str "slurmrestd undefined error")
  number ← get_default error "error_number" (int (negsuc 0))
  description ← getitem error "description"
  source ← getitem error "source"
  ok (internal_error message number description source)

unfoldable pub check_errors : Value → Bool → Result (Unit {0})
unfolding reported
check_errors errors true = ok tt
check_errors errors false = do error ← first errors; exn ← reported error; raised exn

-- Warnings are only logged, but their length is read.
unfoldable pub check_warnings : Value → Bool → Result (Unit {0})
check_warnings result false = ok tt
check_warnings result true = do warnings ← getitem result "warnings"; _ ← is_empty warnings; ok tt

-- The part of _execute_request that follows the validation.
unfoldable pub read_result : Value → Result Value
unfolding check_errors check_warnings
read_result result = do
  errors ← getitem result "errors"
  none_reported ← is_empty errors
  _ ← check_errors errors none_reported
  has_warnings ← contains "warnings" result
  _ ← check_warnings result has_warnings
  ok result

-- From the response to the result of _execute_request.
unfoldable pub read_response : Response → Bool → Result Value
unfolding validate_response read_result
read_response response ignore_notfound = do
  _ ← validate_response response ignore_notfound
  result ← or_raise response.json value_error
  read_result result
