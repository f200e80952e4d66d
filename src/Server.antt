-- ===== src/Server.antt =====
-- edge/client: the two clients of the Portainer server.
pub mod AsyncClient
pub mod AsyncPoll
pub mod EdgeClient
pub mod Examples
