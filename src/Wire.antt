-- ===== src/Wire.antt =====
-- src/wire: JSON for the checkpoint file and the replay body.
pub mod Serialize
pub mod Parser
pub mod Parse
pub mod Numbers
mod Strings
mod Loops
mod Keys
mod Sizes
mod Ends
pub mod Total
pub mod CheckpointTrip
pub mod ReplayTrip
