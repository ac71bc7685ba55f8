-- ===== src/Verifier/Arms/Alu32.antt =====
-- casestudy/sbpf/src/verifier.rs: the arms of `verify` for BPF_ALU32_LOAD.
use aeneas2isabelle.Prelude.{List, [], ◌∷◌, true, not}
use aeneas2isabelle.Ebpf.Opcodes.Alu.{
  add32_imm, add32_reg, and32_imm, and32_reg, arsh32_imm, arsh32_reg, be, div32_imm, div32_reg, le,
  lsh32_imm, lsh32_reg, mod32_imm, mod32_reg, mov32_imm, mov32_reg, mul32_imm, mul32_reg, neg32,
  or32_imm, or32_reg, rsh32_imm, rsh32_reg, sub32_imm, sub32_reg, xor32_imm, xor32_reg,
}
use aeneas2isabelle.Ebpf.Opcodes.Memory.{ld_1b_reg, ld_2b_reg, ld_4b_reg, ld_8b_reg}
use aeneas2isabelle.Program.{
  SbpfVersion, disable_le, disable_neg, enable_pqr, move_memory_instruction_classes,
}
use aeneas2isabelle.Verifier.Arms.{Arm, arm, endian, nonzero, plain, shift}

abbrev pub alu32_arms : SbpfVersion → List Arm
alu32_arms version =
    arm add32_imm true plain
    ∷ arm add32_reg true plain
    ∷ arm sub32_imm true plain
    ∷ arm sub32_reg true plain
    ∷ arm mul32_imm (not (enable_pqr version)) plain
    ∷ arm mul32_reg (not (enable_pqr version)) plain
    ∷ arm ld_1b_reg (move_memory_instruction_classes version) plain
    ∷ arm div32_imm (not (enable_pqr version)) nonzero
    ∷ arm div32_reg (not (enable_pqr version)) plain
    ∷ arm ld_2b_reg (move_memory_instruction_classes version) plain
    ∷ arm or32_imm true plain
    ∷ arm or32_reg true plain
    ∷ arm and32_imm true plain
    ∷ arm and32_reg true plain
    ∷ arm lsh32_imm true (shift 32)
    ∷ arm lsh32_reg true plain
    ∷ arm rsh32_imm true (shift 32)
    ∷ arm rsh32_reg true plain
    ∷ arm neg32 (not (disable_neg version)) plain
    ∷ arm ld_4b_reg (move_memory_instruction_classes version) plain
    ∷ arm mod32_imm (not (enable_pqr version)) nonzero
    ∷ arm mod32_reg (not (enable_pqr version)) plain
    ∷ arm ld_8b_reg (move_memory_instruction_classes version) plain
    ∷ arm xor32_imm true plain
    ∷ arm xor32_reg true plain
    ∷ arm mov32_imm true plain
    ∷ arm mov32_reg true plain
    ∷ arm arsh32_imm true (shift 32)
    ∷ arm arsh32_reg true plain
    ∷ arm le (not (disable_le version)) endian
    ∷ arm be true endian
    ∷ []
