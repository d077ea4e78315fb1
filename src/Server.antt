-- ===== src/Server.antt =====
-- The HTTP server (server/): who may call what, the tables that it keeps in SQLite, and the jobs
-- that it runs in the background.
pub mod Tools
pub mod Registry
pub mod Auth
pub mod Gate
pub mod Http
pub mod Store
pub mod Jobs
pub mod Notifications
pub mod Chat
pub mod Dashboard
mod Tests
