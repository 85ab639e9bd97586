-- ===== src/Config.antt =====
-- internal/pkg/config: the configuration of the server.
pub mod Types
pub mod Authentication
