-- ===== src/Verifier/Arms/Memory.antt =====
-- casestudy/sbpf/src/verifier.rs: the arms of `verify` for LD_DW_IMM, BPF_LDX, BPF_ST and BPF_STX.
use aeneas2isabelle.Prelude.{List, [], ◌∷◌, not}
use aeneas2isabelle.Ebpf.Opcodes.Memory.{
  ld_b_reg, ld_dw_imm, ld_dw_reg, ld_h_reg, ld_w_reg, st_b_imm, st_b_reg, st_dw_imm, st_dw_reg,
  st_h_imm, st_h_reg, st_w_imm, st_w_reg,
}
use aeneas2isabelle.Program.{SbpfVersion, disable_lddw, move_memory_instruction_classes}
use aeneas2isabelle.Verifier.Arms.{Arm, arm, load_dw, plain, store}

abbrev pub memory_arms : SbpfVersion → List Arm
memory_arms version =
    arm ld_dw_imm (not (disable_lddw version)) load_dw
    ∷ arm ld_b_reg (not (move_memory_instruction_classes version)) plain
    ∷ arm ld_h_reg (not (move_memory_instruction_classes version)) plain
    ∷ arm ld_w_reg (not (move_memory_instruction_classes version)) plain
    ∷ arm ld_dw_reg (not (move_memory_instruction_classes version)) plain
    ∷ arm st_b_imm (not (move_memory_instruction_classes version)) store
    ∷ arm st_h_imm (not (move_memory_instruction_classes version)) store
    ∷ arm st_w_imm (not (move_memory_instruction_classes version)) store
    ∷ arm st_dw_imm (not (move_memory_instruction_classes version)) store
    ∷ arm st_b_reg (not (move_memory_instruction_classes version)) store
    ∷ arm st_h_reg (not (move_memory_instruction_classes version)) store
    ∷ arm st_w_reg (not (move_memory_instruction_classes version)) store
    ∷ arm st_dw_reg (not (move_memory_instruction_classes version)) store
    ∷ []
