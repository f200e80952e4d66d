-- ===== src/Server/AsyncPoll/Waiting.antt =====
-- A report that comes while the async client waits for the answer to a snapshot. SetEdgeStackStatus
-- takes a lock that GetEnvironmentStatus holds only while it fills in the request.
use portainer_agent.Server.AsyncClient.{AsyncClient}
