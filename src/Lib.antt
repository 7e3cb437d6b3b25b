-- ===== src/Lib.antt =====
-- Slurm-web: the agent's client of slurmrestd, its cache and its metrics, the agent's views and
-- live sessions, and the gateway's choice of agents with the relay of requests and of live
-- sessions.
--
-- The agent (slurmweb/apps/agent.py, slurmweb/views/agent.py) answers the requests of the gateway
-- with what it gets from slurmrestd, Slurm's REST API, through a stack of classes in
-- slurmweb/slurmrestd/__init__.py: Slurmrestd sends requests and discovers the API version,
-- SlurmrestdAdapter lifts the answers of old versions to the newest one
-- (slurmweb/slurmrestd/adapters), SlurmrestdFiltered reduces them to the selected fields, and
-- SlurmrestdFilteredCached keeps them in Redis (slurmweb/cache.py). Tokens are made by
-- slurmweb/slurmrestd/auth.py. The gateway (slurmweb/apps/gateway.py) polls the agents and keeps
-- those whose version fits; its views (slurmweb/views/gateway.py) relay what a browser asks for. A
-- live session is a WebSocket from the browser through the gateway to the agent, with
-- slurmweb/live.py on both hops. The agent exports the state of the cluster to Prometheus and asks
-- it for past metrics (slurmweb/metrics).
--
-- Files:
--   Base        natural numbers, integers, lists, ASCII text, dictionaries in insertion order,
--               filters
--   Py          parsed JSON (Value), exceptions as values (Error, after slurmweb/errors.py and
--               slurmweb/slurmrestd/errors.py), code that may raise (Result), methods that change an
--               object and may raise (Exec), indexing, `in`, iteration and the like (Ops), and the
--               equality of values (Equal)
--   Cache       slurmweb/cache.py: CacheKey and CachingService. Server states what Redis is relied on
--               for, Memory is a server that behaves so
--   Slurmrestd  Auth: slurmweb/slurmrestd/auth.py, SlurmrestdAuthentifier. Adapters:
--               slurmweb/slurmrestd/adapters. The others are slurmweb/slurmrestd/__init__.py:
--               Response (_validate_* and the reading of a result), Client (the constructors,
--               _execute_request, _request, discover), Jobs (jobs_current, jobs_by_node, jobs_states,
--               _past_jobs_query_params), Resources (resources_states, node_gres_extract_gpus),
--               Filtered and Cached (the classes of these names). Sample is a server for the tests
--   Agent       slurmweb/views/agent.py. Api: what the views take from the client, and the cached
--               client as such. Errors: handle_slurmrestd_errors. Jobs: jobs, job, jobs_past. Logs:
--               _log_path, _managed_job_log, _read_log_chunk, the parameters of job_log. Excerpt:
--               _error_excerpt, on the content of the file when it is opened. Views: ping, stats,
--               nodes, node, partitions, qos, reservations, accounts, associations, cache_stats,
--               cache_reset and the guards of metrics. Diagnostics: _exit_summary and
--               _job_diagnostics. Checks: _job_check_events and _checks_snapshot, and in Feed the
--               stream of job_check_events. Raw: _raw_log_response. Info: info and permissions. Gpus:
--               _gpu_telemetry. Summary: _job_is_active and _job_summary. Live: JobLiveSession, with
--               its attributes, frames and the parsing of messages in State, the answers to messages,
--               the service of the channels and the loop in Control, and job_live in Closing
--   Live        slurmweb/live.py: the upgrade, the reading of messages, the check of the token, and
--               the close of a socket
--   Gateway     slurmweb/apps/gateway.py. Versions: version_greater_or_equal. Agents: SlurmwebAgent,
--               _get_agent_info, _get_agents_info, agents. slurmweb/views/gateway.py. Views:
--               validate_cluster, request_agent, async_proxy_agent, the views that relay, racksdb,
--               get_cluster, get_clusters, clusters. Relay: job_live and _finish_relay. Login:
--               slurmweb/views/auth, the three ways to log in. Pages: message_login, users, ui_files and
--               _infer_ui_prefix
--   Metrics     Db: slurmweb/metrics/db.py, SlurmwebMetricsDB. Collector:
--               slurmweb/metrics/collector.py, SlurmWebMetricsCollector, get_client_ipaddress and the
--               guard of make_wsgi_app. View: metrics of slurmweb/views/agent.py, on its guards and Db
--   Conf        slurmweb/conf.py
--   Frontend    slurmweb/ui.py: _env_truthy, _prefixed_asset_path, and of SlurmwebFrontend validate and
--               runtime_config. Assets: prepare_assets, with the copy of the files, and assets_path
--
-- State: an object is a record of its attributes, and what is outside the program (clock, network,
-- Redis, files) is a type W of states that the calls thread. A method is a function from the state
-- to a result or an exception and the new state, so that what was written before an exception stays
-- written. A live session keeps the list of the frames that it has handed to its socket. The relay
-- of the gateway is a step relation, with the frames of both peers, since two threads run it.
--
-- Parameters: the clock and RFL's JWT modules (Auth.Tokens), the requests library (Client.Net),
-- redis (Cache.Redis), ClusterShell's node sets, the policy of RFL (Jobs.User), pathlib
-- (Logs.Files), the matching of ERROR_LINE and the decoding of bytes (Excerpt), aiohttp
-- (Agents.Fetched, Views.Env, Db.Fetched), the sockets of simple_websocket (Live.Socket), json, the
-- decoding of tokens (Live.Decode), the logins of RFL (Login.Env), the file system of the
-- configuration (Conf.Paths) and of the assets (Assets.Env), datetime.fromisoformat, float(),
-- round(), ipaddress and the text that an f-string makes of a value. Laws are assumed of the clock
-- (it does not go back), of the making of tokens, of Redis, and of sockets (a write raises only
-- that the connection is closed), each where a theorem names it.
--
-- Bounds: loops over lists and ranges are structural. `show`, the digits of a number n, has the
-- fuel n + 1, and a number has at most that many digits. The loop of a live session, which only an
-- exception ends, is watched for a number of turns, over all of which theorems range; that of the
-- event stream has a number of passes as fuel, of which 61 are enough, and that over an output file
-- one turn for each byte and one more. Integers are unbounded as in Python.
--
-- Not modelled: logging; numbers that are not integers, but for those of the metrics database: the
-- times of live sessions and of checks are in milliseconds, the numbers of GPU are integers, and
-- those that are rounded to one decimal are in tenths; `stale_seconds` is not rounded; case and
-- white space outside ASCII; names that occur twice in a JSON object, where an association list
-- keeps both; the texts of exceptions of libraries. Agents and queries of the metrics database are
-- asked one after the other, where asyncio interleaves the requests and keeps the order of the
-- answers. The decorators of RFL that check a token come before the views. The relay of the event
-- stream by the gateway, ui_config, the transport over a Unix socket and commands are left out.
mod Base
pub mod Py
pub mod Cache
pub mod Slurmrestd
pub mod Agent
pub mod Metrics
pub mod Conf
pub mod Frontend
pub mod Gateway
pub mod Live
