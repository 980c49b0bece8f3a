-- ===== src/Tests.antt =====
-- Runs of the models on small inputs, and the theorems at concrete inputs.
pub mod Compress
pub mod Lexer
pub mod Text
pub mod Candidate
pub mod HashMap
pub mod HashMapGrowth
pub mod Block
pub mod Digest
pub mod Guid
