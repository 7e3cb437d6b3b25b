-- ===== src/Slurmrestd/Response/Tests.antt =====
-- Responses of slurmrestd.
use slurm_web.Base.{ℕ, String, ◌≡◌, ◌↔◌, refl, Bool, true, false, Option, none, some}
use slurm_web.Py.Value.{Value, dict, list, field, end, nil, str}
use slurm_web.Py.Error.{not_found, authentication_error}
use slurm_web.Py.Result.{ok, raised}
use slurm_web.Slurmrestd.Response.{Response, read_response}
use slurm_web.Slurmrestd.Response.Accepted.{Accepts, read_response-Accepts}

abbrev empty_document : Value
empty_document = dict (field "errors" (list nil) (field "warnings" (list nil) end))

abbrev answer : ℕ → String → Response
answer code text = record {
  status_code = code;
  url = "http://localhost/slurm/v0.0.44/jobs";
  text = text;
  content_type = some "application/json";
  json = some empty_document;
}

read_response-Accepts_example :
    (read_response (answer 200 "{}") false ≡ ok empty_document)
    ↔ Accepts (answer 200 "{}") false empty_document
read_response-Accepts_example = read_response-Accepts (answer 200 "{}") false empty_document

accepted_response : read_response (answer 200 "{}") false ≡ ok empty_document
unfolding read_response slurm_web.Py.Ops.getitem slurm_web.Base.get slurm_web.Py.Value.fields_of
    slurm_web.Py.Ops.is_empty slurm_web.Py.Ops.iterate slurm_web.Py.Value.items_of
    slurm_web.Py.Ops.contains slurm_web.Base.has
accepted_response = refl

missing_response :
    read_response (answer 404 "") false ≡ raised (not_found "http://localhost/slurm/v0.0.44/jobs")
unfolding read_response
missing_response = refl

-- the workaround for Slurm 25.11.0
unauthenticated_response :
    read_response (answer 500 " Authentication does not apply to request\n") true
    ≡ raised (authentication_error "http://localhost/slurm/v0.0.44/jobs")
unfolding read_response slurm_web.Base.strip
unauthenticated_response = refl
