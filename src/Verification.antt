-- ===== src/Verification.antt =====
-- src/cli/verify.ts and src/cli/verifier-key.ts: verification of packages in three levels.
pub mod Keys
pub mod Levels
pub mod Records
pub mod Sources
pub mod Facts
pub mod Checks
pub mod Requests
pub mod Run
pub mod Lines
