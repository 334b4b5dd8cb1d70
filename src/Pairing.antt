-- ===== src/Pairing.antt =====
-- src/pairing: the browser pairing state machine and its private files.
pub mod State
pub mod Platform
pub mod Endpoints
pub mod Documents
pub mod Identity
pub mod Credentials
pub mod Compare
pub mod Commit
pub mod Http
pub mod Local
pub mod Status
pub mod Create
pub mod Polling
pub mod Activation
pub mod Origin
