-- ===== src/X86/Instruction.antt =====
-- casestudy/sbpf/src/safe_mode/x86.rs: the instruction constructors of `X86Instruction`. The
-- `exclude_operand_sizes!` checks are `debug_assert`s, which a release build skips; `bswap` panics
-- in every build, so it returns an `Option`.
mod Alu
mod Memory
mod Control
unfoldable pub use Alu.*
unfoldable pub use Memory.*
unfoldable pub use Control.*
