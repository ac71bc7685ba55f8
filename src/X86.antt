-- ===== src/X86.antt =====
-- The safe x86-64 encoder of casestudy/sbpf/src/safe_mode/x86.rs.
pub mod Types
pub mod Encode
pub mod Instruction
pub mod Decode
