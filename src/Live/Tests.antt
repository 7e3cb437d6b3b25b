-- ===== src/Live/Tests.antt =====
-- A socket with the first frame of a browser.
use slurm_web.Base.{
  String, ◌≡◌, refl, Bool, true, Option, none, some, ◌⊎◌, inl, inr, ◌==◌, if◌then◌else◌,
}
use slurm_web.Py.Value.{Value, str, dict, field, end}
use slurm_web.Py.Result.{ok}
use slurm_web.Py.Exec.{pure}
use slurm_web.Live.{Socket, authenticate_websocket, websocket_url, check_upgrade}

abbrev socket : Socket (Unit {0}) String
socket = record {
  receive = λ timeout. pure (some "the first frame");
  send = λ frame. pure tt;
  close = λ code message. pure tt;
}

abbrev loads : String → Option Value
loads text = some (dict (field "type" (str "auth") (field "token" (str "valid") end)))

abbrev decode : String → String ⊎ String
decode token = if token == "valid" then inr "marie" else inl "invalid"

upgraded : check_upgrade true (some "WebSocket") ≡ ok tt
unfolding check_upgrade slurm_web.Base.lower
upgraded = refl

url : websocket_url "https://agent/v6" ≡ "wss://agent/v6"
unfolding websocket_url
url = refl

by_frame : (authenticate_websocket loads decode socket none tt).0 ≡ ok ("valid", "marie")
unfolding authenticate_websocket slurm_web.Live.token_of slurm_web.Live.first_frame
    slurm_web.Live.receive_json slurm_web.Live.read_json slurm_web.Live.check_message
    slurm_web.Live.typed slurm_web.Base.get slurm_web.Py.Value.fields_of slurm_web.Live.frame_token
    slurm_web.Live.text_token slurm_web.Live.decoded
by_frame = refl

by_header :
    (authenticate_websocket loads decode socket (some "Bearer valid") tt).0 ≡ ok ("valid", "marie")
unfolding authenticate_websocket slurm_web.Live.token_of slurm_web.Live.header_token
    slurm_web.Live.decoded
by_header = refl
