-- ===== src/Risk.antt =====
-- internal/risk: the analysis of a tool call before it is made, and the check of server/tools.go
-- that warns instead of making a risky call.
pub mod Level
pub mod Design
pub mod Writes
pub mod BatchPut
pub mod Updates
pub mod Capacity
pub mod Advisor
pub mod Dispatch
pub mod Calls
pub mod Samples
mod Tests
