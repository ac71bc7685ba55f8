-- ===== src/Ebpf.antt =====
-- casestudy/sbpf/src/ebpf.rs: the sBPF instruction format.
pub mod Opcodes
pub mod Insn
