-- ===== src/Gateway/Relay/Opening.antt =====
-- For whom the gateway opens a live session on an agent, and how it ends (slurmweb/views/gateway.py).
