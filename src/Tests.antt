-- ===== src/Tests.antt =====
-- Runs of the definitions on inputs from the source's own tests, and the theorems at such inputs.
pub mod Runs
pub mod Requests
pub mod Connections
pub mod Limits
pub mod Routes
pub mod Files
pub mod Ranges
pub mod Panel
pub mod Transport
pub mod Apps
pub mod Configs
pub mod Credentials
