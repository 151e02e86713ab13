-- ===== src/Service.antt =====
-- internal/service: the operations that the HTTP, gRPC and MCP front ends share.
pub mod Core
