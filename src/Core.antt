-- ===== src/Core.antt =====
-- The transport-agnostic core (src/core).
pub mod Message
pub mod History
pub mod Checkpoint
pub mod Client
pub mod Server
pub mod Transcript
