-- ===== src/Overlaydiff.antt =====
-- internal/pkg/overlaydiff: differences between a node's file tree and a baseline.
pub mod Types
pub mod Paths
pub mod Compare
pub mod Includes
pub mod Artifact
pub mod Filter
pub mod Hashing
mod Examples
