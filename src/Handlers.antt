-- ===== src/Handlers.antt =====
-- The handlers of the tools (server/handlers.go) that read and write DynamoDB.
pub mod Effects
pub mod Runs
pub mod Passwords
pub mod Items
pub mod Batch
pub mod Tables
pub mod Update
pub mod Reads
pub mod Create
pub mod Shield
mod Samples
mod Tests
