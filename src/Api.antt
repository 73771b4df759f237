-- ===== src/Api.antt =====
-- web/src/lib/api.ts: the functions that call the server.
pub mod Http
pub mod Types
pub mod Admin
pub mod Weeks
pub mod Household
pub mod Calls
pub mod Server
pub mod Contract
pub mod Complete
pub mod Errors
mod Tests
