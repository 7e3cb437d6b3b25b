-- ===== src/Gateway/Relay/Tests.antt =====
-- A relay of two frames of an agent, and its opening.
use slurm_web.Base.{
  ℕ, String, ◌≡◌, refl, Bool, true, false, Option, none, List, [], ◌∷◌, ◌++◌, length, ◌⊎◌, inl, inr,
  ◌==◌, if◌then◌else◌, pos,
}
use slurm_web.Py.Value.{boolean, str, int}
use slurm_web.Py.Exec.{pure}
use slurm_web.Live.{Socket}
use slurm_web.Gateway.Agents.{SlurmwebAgent}
use slurm_web.Gateway.Relay.{Relay, opened, pump, Steps, agent_sends, pumps, none_yet, after, Env}
use slurm_web.Gateway.Relay.Verbatim.{IsVerbatim, relay-IsVerbatim, pumps_for, pumps_for-agent_sent}

abbrev sent_one : Relay ℕ
sent_one = record opened { agent_sent = 1 ∷ []; from_agent = 1 ∷ [] }

abbrev sent_two : Relay ℕ
sent_two = record opened { agent_sent = 1 ∷ 2 ∷ []; from_agent = 1 ∷ 2 ∷ [] }

two_frames : Steps opened sent_two
two_frames = after (after none_yet (agent_sends opened 1)) (agent_sends sent_one 2)

relay-IsVerbatim_example : IsVerbatim (pump sent_two)
relay-IsVerbatim_example = relay-IsVerbatim (pump sent_two) (after two_frames (pumps sent_two))

pumps_for-agent_sent_example : (pumps_for 2 sent_two).to_browser ≡ 1 ∷ 2 ∷ []
pumps_for-agent_sent_example = pumps_for-agent_sent sent_two two_frames refl

abbrev tiger : SlurmwebAgent
tiger = record {
  version = str "6.1.0";
  cluster = str "tiger";
  racksdb = record { enabled = boolean false; version = str "0"; infrastructure = str "tiger" };
  metrics = boolean true;
  cache = boolean true;
  jobs_max_hours = int (pos 168);
  url = "http://tiger";
}

abbrev socket : Socket (Unit {0}) String
socket = record {
  receive = λ timeout. pure none;
  send = λ frame. pure tt;
  close = λ code message. pure tt;
}

abbrev env : Env (Unit {0}) String
env = record {
  agents = pure (("tiger", tiger) ∷ []);
  browser = socket;
  connect = λ url token. pure socket;
  pump_all = λ upstream. pure tt;
  loads = λ text. none;
  error_frame = λ code message. message;
  format = λ v. "6.1.0";
  show_exn = λ e. "error";
}

abbrev decode : String → String ⊎ String
decode token = if token == "valid" then inr "marie" else inl "invalid"
