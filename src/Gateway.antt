-- ===== src/Gateway.antt =====
-- slurmweb/apps/gateway.py: the gateway, which finds the agents of the clusters.
pub mod Versions
pub mod Agents
pub mod Views
pub mod Relay
pub mod Login
pub mod Pages
