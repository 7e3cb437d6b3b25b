-- ===== src/Live/Handshake.antt =====
-- What a live session may rely on once its socket is open, and how the socket is closed
-- (slurmweb/live.py).
use slurm_web.Base.{
  ℕ, String, ◌≡◌, refl, true, Option, none, some, Bool-cases, sym, inl, inr, get, ap, ◌∙◌, arith,
}
use slurm_web.Py.Value.{Value, str, dict, Fields, fields_of}
use slurm_web.Py.Error.{Exn}
use slurm_web.Py.Result.{Result, ok, raised, ok-injective}
use slurm_web.Py.Exec.{lift, pure, rescue, proceed-eq-ok, proceed-ok}
use slurm_web.Live.{
  Socket, is_closed, ignore_closed, close_websocket, finish_websocket, receive_json, read_json,
  parsed, check_message, typed, Decode, decoded, authenticate_websocket, token_of, take_chars,
}

-- The exceptions of a socket that is written to are those of a closed connection.
pub record IsPolite {W F : Type 0} (ws : Socket W F) : Type 0 where
  pub send : (f : F) (w : W) (e : Exn) → (ws.send f w).0 ≡ raised e → is_closed e ≡ true
  pub close :
      (code : ℕ) (message : String) (w : W) (e : Exn)
      → (ws.close code message w).0 ≡ raised e
      → is_closed e ≡ true

module _ {W F : Type 0} (loads : String → Option Value) (ws : Socket W F) where
  ignored :
      (r : Result (Unit {0}) × W)
      → ((e : Exn) → r.0 ≡ raised e → is_closed e ≡ true)
      → (rescue (ignore_closed loads ws) r).0 ≡ ok tt
  ignored (ok tt, w) h = refl
  ignored (raised e, w) h = rw (h e refl) refl

  pub close_websocket-ok :
      (polite : IsPolite ws) (code : ℕ) (message : String) (w : W)
      → (close_websocket loads ws code message w).0 ≡ ok tt
  unfolding close_websocket
  close_websocket-ok polite code message w =
      ignored (ws.close code message w) (polite.close code message w)

  -- However a session ends, the close of its socket raises nothing, if the socket raises nothing but
  -- that its connection is closed.
  pub finish_websocket-ok :
      (polite : IsPolite ws) (error_frame : ℕ → String → F) (error : Option (ℕ × String)) (w : W)
      → (finish_websocket loads ws error_frame error w).0 ≡ ok tt
  unfolding finish_websocket
  finish_websocket-ok polite error_frame none w = close_websocket-ok polite 1000 "" w
  finish_websocket-ok polite error_frame (some (code, message)) w =
      let sent = rescue (ignore_closed loads ws) (ws.send (error_frame code message) w) in
      let e =
        proceed-ok (λ _. close_websocket loads ws code (take_chars 120 message)) sent tt
          (ignored (ws.send (error_frame code message) w)
            (polite.send (error_frame code message) w)) in
      ap (λ (r : Result (Unit {0}) × W). r.0) e
      ∙ close_websocket-ok polite code (take_chars 120 message) sent.1

-- A JSON object whose type is a text.
pub IsMessage : Value → Type 0
IsMessage v =
    (fs : Fields) × (kind : String) × (v ≡ dict fs) × (get (fields_of fs) "type" ≡ some (str kind))

some-injective : {A : Type 0} {a b : A} → some a ≡ some b → a ≡ b
some-injective h = cc

typed_kind : (o : Option Value) → typed o ≡ true → (kind : String) × (o ≡ some (str kind))
unfolding typed
typed_kind none h = cc
typed_kind (some (str s)) h = (s, refl)
typed_kind (some Value.null) h = cc
typed_kind (some (Value.boolean b)) h = cc
typed_kind (some (Value.int n)) h = cc
typed_kind (some (Value.list vs)) h = cc
typed_kind (some (dict fs)) h = cc

check_message-IsMessage : (v message : Value) → check_message v ≡ ok message → IsMessage message
unfolding check_message IsMessage
check_message-IsMessage (dict fs) message h =
    elim (Bool-cases (typed (get (fields_of fs) "type"))) [
      | inl t ↦
          let (kind, e) = typed_kind (get (fields_of fs) "type") t in
          (fs, kind, sym (ok-injective (rw t at h)), e)
      | inr t ↦ let q = rw t at h in absurd (cc)
    ]
check_message-IsMessage Value.null message h = cc
check_message-IsMessage (Value.boolean b) message h = cc
check_message-IsMessage (Value.int n) message h = cc
check_message-IsMessage (str s) message h = cc
check_message-IsMessage (Value.list vs) message h = cc

parsed-IsMessage : (o : Option Value) (message : Value) → parsed o ≡ ok message → IsMessage message
parsed-IsMessage none message h = cc
parsed-IsMessage (some v) message h = check_message-IsMessage v message h

decoded-inr :
    {User : Type 0} (decode : Decode User) (token token' : String) (user : User)
    → decoded decode token ≡ ok (token', user)
    → decode token' ≡ inr user
unfolding decoded
decoded-inr decode token token' user h = ground arith

module _ {W F : Type 0} (loads : String → Option Value) (ws : Socket W F) where
  read_json-IsMessage :
      (raw : Option String) (w : W) (message : Value)
      → (read_json loads ws raw w).0 ≡ ok (some message)
      → IsMessage message
  unfolding read_json
  read_json-IsMessage none w message h = cc
  read_json-IsMessage (some raw) w message h =
      let (m, a, h') = proceed-eq-ok (λ m. pure (some m)) (parsed (loads raw), w) h in
      parsed-IsMessage (loads raw) message (a ∙ ap ok (some-injective (ok-injective h')))

  -- What the reader of a session hands on is nothing, after the timeout, or an object with a type.
  pub receive_json-IsMessage :
      (timeout : ℕ) (w : W) (message : Value)
      → (receive_json loads ws timeout w).0 ≡ ok (some message)
      → IsMessage message
  unfolding receive_json read_json
  receive_json-IsMessage timeout w message h =
      let (raw, a, h') = proceed-eq-ok (read_json loads ws) (ws.receive timeout w) h in
      read_json-IsMessage raw (ws.receive timeout w).1 message h'

  -- A session is opened only for a user that the token of the request stands for.
  pub authenticate_websocket-Decoded :
      {User : Type 0} (decode : Decode User) (header : Option String) (w : W) (token : String)
      (user : User)
      → (authenticate_websocket loads decode ws header w).0 ≡ ok (token, user)
      → decode token ≡ inr user
  unfolding authenticate_websocket
  authenticate_websocket-Decoded decode header w token user h =
      let (t, a, h') =
        proceed-eq-ok (λ t. lift (decoded decode t)) (token_of loads decode ws header w) h in
      decoded-inr decode t token user h'
