-- ===== src/Verifier.antt =====
-- casestudy/sbpf/src/verifier.rs: the bytecode verifier.
pub mod Types
pub mod Checks
pub mod Arms
pub mod Verify
