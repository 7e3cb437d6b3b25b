-- ===== src/Live.antt =====
-- slurmweb/live.py: the WebSocket of a live session, on both hops.
pub mod Handshake
pub mod Tests
use slurm_web.Base.{
  ℕ, zero, suc, ◌+◌, String, Bool, true, false, Option, none, some, List, [], ◌∷◌, ◌==◌, ◌&&◌, ◌⊎◌,
  inl, inr, not, if◌then◌else◌, codes, starts_with, take, lower, get, is_some,
}
use Prim.Native.String.{[] as nil_str, ◌∷◌ as cons_str}
use slurm_web.Base.{◌^^◌}
use slurm_web.Py.Value.{Value, str, dict, Fields, fields_of}
use slurm_web.Py.Error.{Exn, http_error, live_error, connection_closed, os_error}
use slurm_web.Py.Result.{Result, ok, raised}
use slurm_web.Py.Exec.{Exec, lift, pure, raise, try_except, choose, ◌>>=◌, ◌>>◌}

abbrev pub close_unauthorized : ℕ
close_unauthorized = 4401

abbrev pub close_forbidden : ℕ
close_forbidden = 4403

abbrev pub close_not_found : ℕ
close_not_found = 4404

abbrev pub close_bad_request : ℕ
close_bad_request = 4400

abbrev pub close_upstream : ℕ
close_upstream = 4502

abbrev pub close_internal : ℕ
close_internal = 1011

-- s[n:] and s[:n]
abbrev pub drop_chars : ℕ → String → String
drop_chars zero s = s
drop_chars (suc n) nil_str = nil_str
drop_chars (suc n) (cons_str c s) = drop_chars n s

abbrev pub take_chars : ℕ → String → String
take_chars zero s = nil_str
take_chars (suc n) nil_str = nil_str
take_chars (suc n) (cons_str c s) = cons_str c (take_chars n s)

abbrev pub begins : String → String → Bool
begins prefix s = starts_with (codes prefix) (codes s)

-- A socket of simple_websocket in a world `W`, for frames `F`. A frame that it receives is a text,
-- decoded if it came as bytes, or nothing after the timeout, in milliseconds.
pub record Socket (W F : Type 0) : Type 0 where
  pub receive : ℕ → Exec W (Option String)
  pub send : F → Exec W (Unit {0})
  pub close : ℕ → String → Exec W (Unit {0})

-- accept_websocket, up to the handshake of the library
unfoldable pub check_upgrade : Bool → Option String → Result (Unit {0})
check_upgrade false upgrade =
    raised (http_error 501 "WebSocket support requires the simple-websocket package")
check_upgrade true none = raised (http_error 426 "This endpoint requires a WebSocket upgrade")
check_upgrade true (some upgrade) =
    if lower upgrade == "websocket"
    then ok tt
    else raised (http_error 426 "This endpoint requires a WebSocket upgrade")

-- the URL of connect_websocket
unfoldable pub websocket_url : String → String
websocket_url url =
    if begins "https://" url
    then "wss://" ^^ drop_chars 8 url
    else if begins "http://" url
    then "ws://" ^^ drop_chars 7 url
    else url

-- the last test of receive_json
unfoldable pub typed : Option Value → Bool
typed (some (str kind)) = true
typed found = false

unfoldable pub check_message : Value → Result Value
check_message (dict fs) =
    if typed (get (fields_of fs) "type")
    then ok (dict fs)
    else raised (live_error close_bad_request "messages must carry a string type")
check_message v = raised (live_error close_bad_request "messages must carry a string type")

-- json.loads(raw)
abbrev pub parsed : Option Value → Result Value
parsed none = raised (live_error close_bad_request "messages must be JSON objects")
parsed (some message) = check_message message

abbrev pub as_some : Value → Option Value
as_some v = some v

abbrev pub is_closed : Exn → Bool
is_closed connection_closed = true
is_closed (os_error text) = true
is_closed e = false

module _ {W F : Type 0} (loads : String → Option Value) (ws : Socket W F) where
  unfoldable pub read_json : Option String → Exec W (Option Value)
  read_json none = pure none
  read_json (some raw) = do message ← lift (parsed (loads raw)); pure (some message)

  -- receive_json
  unfoldable pub receive_json : ℕ → Exec W (Option Value)
  receive_json timeout = do raw ← ws.receive timeout; read_json raw

  -- except (ConnectionClosed, OSError): pass
  abbrev pub ignore_closed : Exn → Exec W (Unit {0})
  ignore_closed e = choose (is_closed e) (pure tt) (raise e)

  -- close_websocket
  unfoldable pub close_websocket : ℕ → String → Exec W (Unit {0})
  close_websocket code message = try_except (ws.close code message) ignore_closed

  -- finish_websocket; `error_frame` is the message of type "error"
  unfoldable pub finish_websocket : (ℕ → String → F) → Option (ℕ × String) → Exec W (Unit {0})
  finish_websocket error_frame none = close_websocket 1000 ""
  finish_websocket error_frame (some (code, message)) = do
    try_except (ws.send (error_frame code message)) ignore_closed
    close_websocket code (take_chars 120 message)

-- current_app.jwt.decode: the user of a token, or the text of a JWTDecodeError
abbrev pub Decode : Type 0 → Type 0
Decode User = String → String ⊎ User

unfoldable pub decoded : {User : Type 0} → Decode User → String → Result (String × User)
decoded decode token = elim (decode token) [
  | inl error ↦ raised (live_error close_unauthorized error)
  | inr user ↦ ok (token, user)
]

-- isinstance(token, str) and token
unfoldable pub text_token : Option Value → Result String
text_token (some (str token)) =
    if token == ""
    then raised (live_error close_unauthorized "auth message requires a token")
    else ok token
text_token found = raised (live_error close_unauthorized "auth message requires a token")

abbrev pub kind_is : String → Option Value → Bool
kind_is kind (some (str s)) = s == kind
kind_is kind found = false

-- the first frame of a browser
unfoldable pub frame_token : Option Value → Result String
frame_token (some (dict fs)) =
    if kind_is "auth" (get (fields_of fs) "type")
    then text_token (get (fields_of fs) "token")
    else raised (live_error close_unauthorized "First message must be auth")
frame_token message = raised (live_error close_unauthorized "First message must be auth")

unfoldable pub header_token : String → Result String
header_token auth =
    if begins "Bearer " auth
    then ok (drop_chars 7 auth)
    else raised (live_error close_unauthorized "Malformed authorization header")

module _ {W F User : Type 0} (loads : String → Option Value) (decode : Decode User)
    (ws : Socket W F) where
  unfoldable pub first_frame : Exec W String
  first_frame = do message ← receive_json loads ws 10000; lift (frame_token message)

  -- the Authorization header, or else the first frame
  unfoldable pub token_of : Option String → Exec W String
  token_of none = first_frame
  token_of (some auth) = elim (auth == "") [ true ↦ first_frame | false ↦ lift (header_token auth) ]

  -- authenticate_websocket
  unfoldable pub authenticate_websocket : Option String → Exec W (String × User)
  authenticate_websocket header = do token ← token_of header; lift (decoded decode token)
