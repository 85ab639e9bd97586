-- ===== src/Upgrade/Config.antt =====
-- internal/pkg/upgrade/config.go: the upgrade of warewulf.conf.
pub mod Types
pub mod Services
pub mod Files
