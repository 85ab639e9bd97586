-- ===== src/Hostlist.antt =====
-- internal/pkg/hostlist/hostlist.go: node patterns and their expansion.
pub mod Numbers
pub mod Expand
pub mod Groups
pub mod Compress
mod Examples
