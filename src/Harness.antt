-- ===== src/Harness.antt =====
-- verification/src: the simulated network, the checker and the fuzz driver, over a source of random
-- draws that is a parameter.
pub mod Link
pub mod Checker
pub mod Driver
pub mod Phases
pub mod Handshake
pub mod Handled
pub mod Refinement
