-- ===== src/Warewulfd.antt =====
-- internal/pkg/warewulfd: how the server reads a request, finds the node and grants access, and the
-- REST interface.
pub mod Requests
pub mod NodeDb
pub mod Access
pub mod Status
pub mod Discovery
pub mod Api
pub mod Provision
mod Examples
