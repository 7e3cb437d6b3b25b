-- ===== src/Agent.antt =====
-- slurmweb/views/agent.py: the REST API of the agent.
pub mod Api
pub mod Checks
pub mod Diagnostics
pub mod Gpus
pub mod Errors
pub mod Excerpt
pub mod Info
pub mod Jobs
pub mod Logs
pub mod Raw
pub mod Summary
pub mod Live
pub mod Views
