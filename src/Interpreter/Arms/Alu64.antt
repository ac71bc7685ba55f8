-- ===== src/Interpreter/Arms/Alu64.antt =====
-- casestudy/sbpf/src/interpreter.rs: the arms of `step` for BPF_ALU64_STORE.
use aeneas2isabelle.Prelude.{
  ◌/◌, ◌%◌, ◌^◌, true, false, not, List, [], ◌∷◌, ◌==◌, if◌then◌else◌, bit_and, bit_or,
}
use Prim.Native.Nat.{bit_xor}
use aeneas2isabelle.Prelude.Int.{pos, wrap}
use aeneas2isabelle.Ebpf.Insn.{Insn}
use aeneas2isabelle.Program.{
  SbpfVersion, disable_neg, enable_pqr, move_memory_instruction_classes, disable_lddw,
  swap_sub_reg_imm_operands,
}
use aeneas2isabelle.Interpreter.Words.{
  as_u32, as_i64, imm_u32, imm_u64, ◌-ℤ◌, wrapping_add, wrapping_sub, wrapping_mul, wrapping_shl,
  wrapping_shr, shift_right,
}
use aeneas2isabelle.Interpreter.Arms.{
  as_unsigned64, Op, op, set_imm, set_dst, set_src, set_both, divide_imm, divide_reg, store_imm,
  store_reg,
}
use aeneas2isabelle.Ebpf.Opcodes.Alu.{
  add64_imm, add64_reg, and64_imm, and64_reg, arsh64_imm, arsh64_reg, div64_imm, div64_reg,
  hor64_imm, lsh64_imm, lsh64_reg, mod64_imm, mod64_reg, mov64_imm, mov64_reg, mul64_imm, mul64_reg,
  neg64, or64_imm, or64_reg, rsh64_imm, rsh64_reg, sub64_imm, sub64_reg, xor64_imm, xor64_reg,
}
use aeneas2isabelle.Ebpf.Opcodes.Memory.{
  st_1b_imm, st_1b_reg, st_2b_imm, st_2b_reg, st_4b_imm, st_4b_reg, st_8b_imm, st_8b_reg,
}

unfoldable pub alu64_ops : SbpfVersion → Insn → List Op
alu64_ops version insn =
    op add64_imm true (set_dst (λ d. wrapping_add 64 d (imm_u64 insn.imm)))
    ∷ op add64_reg true (set_both (λ d s. wrapping_add 64 d (s)))
    ∷ op sub64_imm true (
        set_dst (λ d.
          if swap_sub_reg_imm_operands version
          then wrapping_sub 64 (imm_u64 insn.imm) d
          else wrapping_sub 64 d (imm_u64 insn.imm)))
    ∷ op sub64_reg true (set_both (λ d s. wrapping_sub 64 d (s)))
    ∷ op mul64_imm (not (enable_pqr version)) (set_dst (λ d. wrapping_mul 64 d (imm_u64 insn.imm)))
    ∷ op st_1b_imm (move_memory_instruction_classes version) (store_imm 1)
    ∷ op mul64_reg (not (enable_pqr version)) (set_both (λ d s. wrapping_mul 64 d (s)))
    ∷ op st_1b_reg (move_memory_instruction_classes version) (store_reg 1)
    ∷ op div64_imm (not (enable_pqr version))
        (divide_imm as_unsigned64 (λ d. false) (λ d. (d) / (imm_u64 insn.imm)))
    ∷ op st_2b_imm (move_memory_instruction_classes version) (store_imm 2)
    ∷ op div64_reg (not (enable_pqr version))
        (divide_reg (λ s. (s) == 0) (λ d s. false) (λ d s. (d) / (s)))
    ∷ op st_2b_reg (move_memory_instruction_classes version) (store_reg 2)
    ∷ op or64_imm true (set_dst (λ d. bit_or (d) (imm_u64 insn.imm)))
    ∷ op or64_reg true (set_both (λ d s. bit_or (d) (s)))
    ∷ op and64_imm true (set_dst (λ d. bit_and (d) (imm_u64 insn.imm)))
    ∷ op and64_reg true (set_both (λ d s. bit_and (d) (s)))
    ∷ op lsh64_imm true (set_dst (λ d. wrapping_shl 64 (d) (imm_u32 insn.imm)))
    ∷ op lsh64_reg true (set_both (λ d s. wrapping_shl 64 (d) (as_u32 s)))
    ∷ op rsh64_imm true (set_dst (λ d. wrapping_shr 64 (d) (imm_u32 insn.imm)))
    ∷ op rsh64_reg true (set_both (λ d s. wrapping_shr 64 (d) (as_u32 s)))
    ∷ op st_4b_imm (move_memory_instruction_classes version) (store_imm 4)
    ∷ op neg64 (not (disable_neg version)) (set_dst (λ d. wrap (2 ^ 64) (pos 0 -ℤ as_i64 d)))
    ∷ op st_4b_reg (move_memory_instruction_classes version) (store_reg 4)
    ∷ op mod64_imm (not (enable_pqr version))
        (divide_imm as_unsigned64 (λ d. false) (λ d. (d) % (imm_u64 insn.imm)))
    ∷ op st_8b_imm (move_memory_instruction_classes version) (store_imm 8)
    ∷ op mod64_reg (not (enable_pqr version))
        (divide_reg (λ s. (s) == 0) (λ d s. false) (λ d s. (d) % (s)))
    ∷ op st_8b_reg (move_memory_instruction_classes version) (store_reg 8)
    ∷ op xor64_imm true (set_dst (λ d. bit_xor (d) (imm_u64 insn.imm)))
    ∷ op xor64_reg true (set_both (λ d s. bit_xor (d) (s)))
    ∷ op mov64_imm true (set_imm (imm_u64 insn.imm))
    ∷ op mov64_reg true (set_src (λ s. s))
    ∷ op arsh64_imm true
        (set_dst (λ d. wrap (2 ^ 64) (shift_right (as_i64 d) ((imm_u32 insn.imm) % 64))))
    ∷ op arsh64_reg true
        (set_both (λ d s. wrap (2 ^ 64) (shift_right (as_i64 d) ((as_u32 s) % 64))))
    ∷ op hor64_imm (disable_lddw version)
        (set_dst (λ d. bit_or d (wrapping_shl 64 (imm_u64 insn.imm) 32)))
    ∷ []
