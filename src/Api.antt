-- ===== src/Api.antt =====
-- The client and its calls.
pub mod Errors
pub mod Options
pub mod Exchange
pub mod Auth
pub mod Chat
pub mod LocalWorker
pub mod Account
pub mod Solve
