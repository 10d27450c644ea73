-- ===== src/AgentSrv.antt =====
-- coordinator/internal/agentsrv/server.go: the agents' sessions and their messages.
pub mod Messages
pub mod Results
pub mod BigFiles
pub mod Splits
pub mod Dispatch
pub mod Acks
