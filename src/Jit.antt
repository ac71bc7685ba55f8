-- ===== src/Jit.antt =====
-- casestudy/sbpf/src/safe_mode/jit.rs: the safe model of the JIT compiler.
pub mod Types
pub mod Result
pub mod State
pub mod Registers
pub mod Emit
pub mod Lower
pub mod Compile
pub mod Reference
