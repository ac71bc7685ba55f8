-- ===== src/Verifier/Arms/Alu64.antt =====
-- casestudy/sbpf/src/verifier.rs: the arms of `verify` for BPF_ALU64_STORE.
use aeneas2isabelle.Prelude.{List, [], ◌∷◌, true, not, ◌&&◌, ◌==◌}
use aeneas2isabelle.Ebpf.Opcodes.{frame_ptr_reg}
use aeneas2isabelle.Ebpf.Insn.{Insn}
use aeneas2isabelle.Ebpf.Opcodes.Alu.{
  add64_imm, add64_reg, and64_imm, and64_reg, arsh64_imm, arsh64_reg, div64_imm, div64_reg,
  hor64_imm, lsh64_imm, lsh64_reg, mod64_imm, mod64_reg, mov64_imm, mov64_reg, mul64_imm, mul64_reg,
  neg64, or64_imm, or64_reg, rsh64_imm, rsh64_reg, sub64_imm, sub64_reg, xor64_imm, xor64_reg,
}
use aeneas2isabelle.Ebpf.Opcodes.Memory.{
  st_1b_imm, st_1b_reg, st_2b_imm, st_2b_reg, st_4b_imm, st_4b_reg, st_8b_imm, st_8b_reg,
}
use aeneas2isabelle.Program.{
  SbpfVersion, disable_lddw, disable_neg, enable_pqr, manual_stack_frame_bump,
  move_memory_instruction_classes,
}
use aeneas2isabelle.Verifier.Arms.{Arm, arm, aligned, nonzero, plain, shift, store}

abbrev pub alu64_arms : SbpfVersion → Insn → List Arm
alu64_arms version insn =
    arm add64_imm ((insn.dst == frame_ptr_reg) && manual_stack_frame_bump version) (aligned 64)
    ∷ arm add64_imm true plain
    ∷ arm add64_reg true plain
    ∷ arm sub64_imm true plain
    ∷ arm sub64_reg true plain
    ∷ arm mul64_imm (not (enable_pqr version)) plain
    ∷ arm st_1b_imm (move_memory_instruction_classes version) store
    ∷ arm mul64_reg (not (enable_pqr version)) plain
    ∷ arm st_1b_reg (move_memory_instruction_classes version) store
    ∷ arm div64_imm (not (enable_pqr version)) nonzero
    ∷ arm st_2b_imm (move_memory_instruction_classes version) store
    ∷ arm div64_reg (not (enable_pqr version)) plain
    ∷ arm st_2b_reg (move_memory_instruction_classes version) store
    ∷ arm or64_imm true plain
    ∷ arm or64_reg true plain
    ∷ arm and64_imm true plain
    ∷ arm and64_reg true plain
    ∷ arm lsh64_imm true (shift 64)
    ∷ arm lsh64_reg true plain
    ∷ arm rsh64_imm true (shift 64)
    ∷ arm rsh64_reg true plain
    ∷ arm st_4b_imm (move_memory_instruction_classes version) store
    ∷ arm neg64 (not (disable_neg version)) plain
    ∷ arm st_4b_reg (move_memory_instruction_classes version) store
    ∷ arm mod64_imm (not (enable_pqr version)) nonzero
    ∷ arm st_8b_imm (move_memory_instruction_classes version) store
    ∷ arm mod64_reg (not (enable_pqr version)) plain
    ∷ arm st_8b_reg (move_memory_instruction_classes version) store
    ∷ arm xor64_imm true plain
    ∷ arm xor64_reg true plain
    ∷ arm mov64_imm true plain
    ∷ arm mov64_reg true plain
    ∷ arm arsh64_imm true (shift 64)
    ∷ arm arsh64_reg true plain
    ∷ arm hor64_imm (disable_lddw version) plain
    ∷ []
