-- ===== src/Interpreter/Arms/Memory.antt =====
-- casestudy/sbpf/src/interpreter.rs: the arms of `step` for BPF_LDX, BPF_ST and BPF_STX.
use aeneas2isabelle.Prelude.{not, List, [], ◌∷◌}
use aeneas2isabelle.Program.{SbpfVersion, move_memory_instruction_classes, disable_lddw}
use aeneas2isabelle.Interpreter.Arms.{Op, op, load, store_imm, store_reg, load_dw}
use aeneas2isabelle.Ebpf.Opcodes.Memory.{
  ld_b_reg, ld_dw_imm, ld_dw_reg, ld_h_reg, ld_w_reg, st_b_imm, st_b_reg, st_dw_imm, st_dw_reg,
  st_h_imm, st_h_reg, st_w_imm, st_w_reg,
}

unfoldable pub memory_ops : SbpfVersion → List Op
memory_ops version =
    op ld_dw_imm (not (disable_lddw version)) load_dw
    ∷ op ld_b_reg (not (move_memory_instruction_classes version)) (load 1)
    ∷ op ld_h_reg (not (move_memory_instruction_classes version)) (load 2)
    ∷ op ld_w_reg (not (move_memory_instruction_classes version)) (load 4)
    ∷ op ld_dw_reg (not (move_memory_instruction_classes version)) (load 8)
    ∷ op st_b_imm (not (move_memory_instruction_classes version)) (store_imm 1)
    ∷ op st_h_imm (not (move_memory_instruction_classes version)) (store_imm 2)
    ∷ op st_w_imm (not (move_memory_instruction_classes version)) (store_imm 4)
    ∷ op st_dw_imm (not (move_memory_instruction_classes version)) (store_imm 8)
    ∷ op st_b_reg (not (move_memory_instruction_classes version)) (store_reg 1)
    ∷ op st_h_reg (not (move_memory_instruction_classes version)) (store_reg 2)
    ∷ op st_w_reg (not (move_memory_instruction_classes version)) (store_reg 4)
    ∷ op st_dw_reg (not (move_memory_instruction_classes version)) (store_reg 8)
    ∷ []
