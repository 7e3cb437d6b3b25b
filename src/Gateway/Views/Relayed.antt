-- ===== src/Gateway/Views/Relayed.antt =====
-- What the gateway asks an agent for, and what it answers (slurmweb/views/gateway.py).
use slurm_web.Base.{String, ◌^^◌}
use slurm_web.Gateway.Agents.{SlurmwebAgent}
use slurm_web.Gateway.Views.{Request, Env, with_query}

module _ {S : Type 0} (env : Env S) (request : Request) where
  abbrev pub target : SlurmwebAgent → String → String
  target a query = with_query (a.url ^^ ("/v" ^^ (env.format a.version ^^ ("/" ^^ query)))) request
