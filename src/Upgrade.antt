-- ===== src/Upgrade.antt =====
-- internal/pkg/upgrade: reading the configuration of older releases.
pub mod Types
pub mod Slices
pub mod Values
pub mod Devices
pub mod Profiles
pub mod Nodes
pub mod Config
mod Examples
