-- ===== src/Tests.antt =====
-- Runs of the model on concrete inputs, and the theorems at concrete inputs.
pub mod Wire
pub mod Flows
pub mod Decoding
pub mod Sessions
pub mod Archive
pub mod Dashboards
pub mod Hosts
