-- ===== src/Programs.antt =====
-- The three programs: their command lines, what they do with them, and their exit codes.
pub mod Args
pub mod FuzzMain
pub mod ClientMain
pub mod ServerMain
pub mod Unknown
