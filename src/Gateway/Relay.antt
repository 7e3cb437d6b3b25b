-- ===== src/Gateway/Relay.antt =====
-- slurmweb/views/gateway.py, job_live() and _finish_relay(): the relay of a live session between a
-- browser and an agent.
pub mod Verbatim
pub mod Opening
pub mod Tests
use slurm_web.Base.{
  ℕ, String, Bool, true, false, Option, none, some, List, [], ◌∷◌, ◌++◌, ◌||◌, if◌then◌else◌, Dict,
  get, has, ◌^^◌, show,
}
use slurm_web.Py.Value.{Value}
use slurm_web.Py.Error.{Exn, live_error, key_error, connection_closed}
use slurm_web.Py.Result.{Result, ok, raised, or_raise}
use slurm_web.Py.Exec.{Exec, lift, pure, raise, try_except, ◌>>=◌, ◌>>◌}
use slurm_web.Live.{
  Socket, Decode, authenticate_websocket, close_websocket, finish_websocket, websocket_url,
  close_not_found, close_upstream,
}
use slurm_web.Gateway.Agents.{SlurmwebAgent}

-- Both sockets of a relay, for frames `F`: what either peer has sent so far, what of it has not been
-- handed on (a frame that a thread has read and could not send is one of these), and what the other
-- peer has got. The thread downstream() and the loop of the request run until they end.
pub record Relay (F : Type 0) : Type 0 where
  pub agent_sent : List F
  pub from_agent : List F
  pub to_browser : List F
  pub browser_sent : List F
  pub from_browser : List F
  pub to_agent : List F
  pub downstream : Bool
  pub upstream : Bool

-- How a relay starts, once both sockets are open.
abbrev pub opened : {F : Type 0} → Relay F
opened = record {
  agent_sent = [];
  from_agent = [];
  to_browser = [];
  browser_sent = [];
  from_browser = [];
  to_agent = [];
  downstream = true;
  upstream = true;
}

module _ {F : Type 0} where
  -- frame = upstream.receive(); ws.send(frame)
  pub pump_frame : List F → Relay F → Relay F
  pump_frame [] r = r
  pump_frame (frame ∷ rest) r = record r {
    from_agent = rest;
    to_browser = r.to_browser ++ (frame ∷ []);
  }

  pub pump : Relay F → Relay F
  unfolding pump_frame
  pump r = if r.downstream then pump_frame r.from_agent r else r

  -- frame = ws.receive(); upstream.send(frame)
  pub forward_frame : List F → Relay F → Relay F
  forward_frame [] r = r
  forward_frame (frame ∷ rest) r = record r {
    from_browser = rest;
    to_agent = r.to_agent ++ (frame ∷ []);
  }

  pub forward : Relay F → Relay F
  unfolding forward_frame
  forward r = if r.upstream then forward_frame r.from_browser r else r

  -- What may happen next, in any order: a peer sends a frame, a thread relays one, or a thread ends,
  -- for the end of a connection or an error. The end of the loop of the request closes the relay; the
  -- other thread may go on until it notices.
  pub data Step : Relay F → Relay F → Type 0 where
    agent_sends :
        (r : Relay F) (frame : F)
        → Step r (record r {
          agent_sent = r.agent_sent ++ (frame ∷ []);
          from_agent = r.from_agent ++ (frame ∷ []);
        })
    browser_sends :
        (r : Relay F) (frame : F)
        → Step r (record r {
          browser_sent = r.browser_sent ++ (frame ∷ []);
          from_browser = r.from_browser ++ (frame ∷ []);
        })
    pumps : (r : Relay F) → Step r (pump r)
    forwards : (r : Relay F) → Step r (forward r)
    downstream_ends : (r : Relay F) → Step r (record r { downstream = false })
    upstream_ends : (r : Relay F) → Step r (record r { upstream = false })

  pub data Steps : Relay F → Relay F → Type 0 where
    none_yet : {r : Relay F} → Steps r r
    after : {r s t : Relay F} → Steps r s → Step s t → Steps r t

-- What job_live uses: the agents, the connection to an agent with a URL and a token, the relay itself,
-- which an exception or the end of a connection ends, and the sockets.
pub record Env (S F : Type 0) : Type 0 where
  pub agents : Exec S (Dict SlurmwebAgent)
  pub browser : Socket S F
  pub connect : String → String → Exec S (Socket S F)
  pub pump_all : Socket S F → Exec S (Unit {0})
  pub loads : String → Option Value
  pub error_frame : ℕ → String → F
  pub format : Value → String
  pub show_exn : Exn → String

abbrev pub live_url : {S F : Type 0} → Env S F → SlurmwebAgent → ℕ → String
live_url env a job =
    websocket_url (a.url ^^ ("/v" ^^ (env.format a.version ^^ ("/job/" ^^ (show job ^^ "/live")))))

module _ {S F User : Type 0} (env : Env S F) (decode : Decode User) where
  abbrev pub check_cluster : String → Bool → Result (Unit {0})
  check_cluster cluster true = ok tt
  check_cluster cluster false =
      raised (live_error close_not_found ("cluster " ^^ (cluster ^^ " not found")))

  -- except Exception, around the connection
  abbrev pub unavailable : Exn → Exec S (Socket S F)
  unavailable e = raise (live_error close_upstream "agent live session unavailable")

  -- the part of job_live up to the connection; the property `agents` is read twice there
  unfoldable pub open_upstream : Option String → String → ℕ → Exec S (Socket S F)
  open_upstream header cluster job = do
    (token, user) ← authenticate_websocket env.loads decode env.browser header
    first ← env.agents
    lift (check_cluster cluster (has first cluster))
    second ← env.agents
    a ← lift (or_raise (get second cluster) (key_error cluster))
    try_except (env.connect (live_url env a job) token) unavailable

  -- _finish_relay
  unfoldable pub finish_relay : Option (Socket S F) → Option (ℕ × String) → Exec S (Unit {0})
  finish_relay none error = finish_websocket env.loads env.browser env.error_frame error
  finish_relay (some upstream) error = do
    close_websocket env.loads upstream 1000 ""
    finish_websocket env.loads env.browser env.error_frame error

  -- the handlers of job_live
  abbrev pub ending : Exn → Option (ℕ × String)
  ending connection_closed = none
  ending (live_error code message) = some (code, message)
  ending e = some (close_upstream, env.show_exn e)

  abbrev pub relayed : Socket S F → Result (Unit {0}) × S → Result (Unit {0}) × S
  relayed upstream (ok a, s) = finish_relay (some upstream) none s
  relayed upstream (raised e, s) = finish_relay (some upstream) (ending e) s

  abbrev pub connected : Result (Socket S F) × S → Result (Unit {0}) × S
  connected (ok upstream, s) = relayed upstream (env.pump_all upstream s)
  connected (raised e, s) = finish_relay none (ending e) s

  -- job_live, after accept_websocket
  unfoldable pub job_live : Option String → String → ℕ → Exec S (Unit {0})
  job_live header cluster job s = connected (open_upstream header cluster job s)
