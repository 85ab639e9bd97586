-- ===== src/Node.antt =====
-- internal/pkg/node: the node registry.
pub mod Types
pub mod Lists
pub mod Profiles
pub mod Queries
pub mod Registry
pub mod Merge
pub mod Changes
pub mod Storage
pub mod Groups
mod Examples
