-- ===== src/Tests.antt =====
-- Concrete inputs for the theorems, and runs of the definitions.
mod Fixtures
mod MessageJson
mod OfSession
mod OfSync
mod OfAudit
mod OfClient
mod OfFiles
mod OfSqlite
mod OfHub
mod OfApi
mod OfSettings
mod OfRun
mod OfChat
