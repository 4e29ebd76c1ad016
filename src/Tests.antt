-- ===== src/Tests.antt =====
-- Concrete runs: the theorems at inputs where their hypotheses hold, and tests of the definitions.
mod Runs
mod Conversations
mod Formats
mod Answers
mod Http
mod Pools
mod Fuzz
mod Programs
