-- ===== src/Interpreter/Arms/Alu32.antt =====
-- casestudy/sbpf/src/interpreter.rs: the arms of `step` for BPF_ALU32_LOAD.
use aeneas2isabelle.Prelude.{
  ◌/◌, ◌%◌, ◌^◌, true, false, not, List, [], ◌∷◌, ◌==◌, if◌then◌else◌, bit_and, bit_or,
}
use Prim.Native.Nat.{bit_xor}
use aeneas2isabelle.Prelude.Int.{pos, ◌+ℤ◌, wrap}
use aeneas2isabelle.Ebpf.Insn.{Insn}
use aeneas2isabelle.Program.{
  SbpfVersion, disable_le, disable_neg, enable_pqr, move_memory_instruction_classes,
  explicit_sign_extension_of_results, swap_sub_reg_imm_operands,
}
use aeneas2isabelle.Interpreter.Words.{
  as_u32, as_i32, wrapping_i32, imm_i32, imm_u32, ◌-ℤ◌, ◌*ℤ◌, wrapping_shl, wrapping_shr,
  shift_right, swap_bytes,
}
use aeneas2isabelle.Interpreter.Arms.{
  as_unsigned32, Op, op, sign_extension, set_imm, set_dst, set_src, set_both, divide_imm,
  divide_reg, load, convert,
}
use aeneas2isabelle.Ebpf.Opcodes.Alu.{
  add32_imm, add32_reg, and32_imm, and32_reg, arsh32_imm, arsh32_reg, be, div32_imm, div32_reg, le,
  lsh32_imm, lsh32_reg, mod32_imm, mod32_reg, mov32_imm, mov32_reg, mul32_imm, mul32_reg, neg32,
  or32_imm, or32_reg, rsh32_imm, rsh32_reg, sub32_imm, sub32_reg, xor32_imm, xor32_reg,
}
use aeneas2isabelle.Ebpf.Opcodes.Memory.{ld_1b_reg, ld_2b_reg, ld_4b_reg, ld_8b_reg}

unfoldable pub alu32_ops : SbpfVersion → Insn → List Op
alu32_ops version insn =
    op add32_imm true
      (set_dst (λ d. sign_extension version (wrapping_i32 (as_i32 d +ℤ imm_i32 insn.imm))))
    ∷ op add32_reg true
        (set_both (λ d s. sign_extension version (wrapping_i32 (as_i32 d +ℤ as_i32 s))))
    ∷ op sub32_imm true (
        set_dst (λ d.
          if swap_sub_reg_imm_operands version
          then sign_extension version (wrapping_i32 (imm_i32 insn.imm -ℤ as_i32 d))
          else sign_extension version (wrapping_i32 (as_i32 d -ℤ imm_i32 insn.imm))))
    ∷ op sub32_reg true
        (set_both (λ d s. sign_extension version (wrapping_i32 (as_i32 d -ℤ as_i32 s))))
    ∷ op mul32_imm (not (enable_pqr version))
        (set_dst (λ d. sign_extension version (wrapping_i32 (as_i32 d *ℤ imm_i32 insn.imm))))
    ∷ op mul32_reg (not (enable_pqr version))
        (set_both (λ d s. sign_extension version (wrapping_i32 (as_i32 d *ℤ as_i32 s))))
    ∷ op ld_1b_reg (move_memory_instruction_classes version) (load 1)
    ∷ op div32_imm (not (enable_pqr version))
        (divide_imm as_unsigned32 (λ d. false) (λ d. (as_u32 d) / (imm_u32 insn.imm)))
    ∷ op div32_reg (not (enable_pqr version))
        (divide_reg (λ s. (as_u32 s) == 0) (λ d s. false) (λ d s. (as_u32 d) / (as_u32 s)))
    ∷ op ld_2b_reg (move_memory_instruction_classes version) (load 2)
    ∷ op or32_imm true (set_dst (λ d. bit_or (as_u32 d) (imm_u32 insn.imm)))
    ∷ op or32_reg true (set_both (λ d s. bit_or (as_u32 d) (as_u32 s)))
    ∷ op and32_imm true (set_dst (λ d. bit_and (as_u32 d) (imm_u32 insn.imm)))
    ∷ op and32_reg true (set_both (λ d s. bit_and (as_u32 d) (as_u32 s)))
    ∷ op lsh32_imm true (set_dst (λ d. wrapping_shl 32 (as_u32 d) (imm_u32 insn.imm)))
    ∷ op lsh32_reg true (set_both (λ d s. wrapping_shl 32 (as_u32 d) (as_u32 s)))
    ∷ op rsh32_imm true (set_dst (λ d. wrapping_shr 32 (as_u32 d) (imm_u32 insn.imm)))
    ∷ op rsh32_reg true (set_both (λ d s. wrapping_shr 32 (as_u32 d) (as_u32 s)))
    ∷ op neg32 (not (disable_neg version))
        (set_dst (λ d. bit_and (wrap (2 ^ 64) (wrapping_i32 (pos 0 -ℤ as_i32 d))) 0xffff_ffff))
    ∷ op ld_4b_reg (move_memory_instruction_classes version) (load 4)
    ∷ op mod32_imm (not (enable_pqr version))
        (divide_imm as_unsigned32 (λ d. false) (λ d. (as_u32 d) % (imm_u32 insn.imm)))
    ∷ op mod32_reg (not (enable_pqr version))
        (divide_reg (λ s. (as_u32 s) == 0) (λ d s. false) (λ d s. (as_u32 d) % (as_u32 s)))
    ∷ op ld_8b_reg (move_memory_instruction_classes version) (load 8)
    ∷ op xor32_imm true (set_dst (λ d. bit_xor (as_u32 d) (imm_u32 insn.imm)))
    ∷ op xor32_reg true (set_both (λ d s. bit_xor (as_u32 d) (as_u32 s)))
    ∷ op mov32_imm true (set_imm (imm_u32 insn.imm))
    ∷ op mov32_reg true (
        set_src (λ s.
          if explicit_sign_extension_of_results version
          then wrap (2 ^ 64) (as_i32 s)
          else as_u32 s))
    ∷ op arsh32_imm true
        (set_dst (λ d. wrap (2 ^ 32) (shift_right (as_i32 d) ((imm_u32 insn.imm) % 32))))
    ∷ op arsh32_reg true
        (set_both (λ d s. wrap (2 ^ 32) (shift_right (as_i32 d) ((as_u32 s) % 32))))
    ∷ op le (not (disable_le version)) (convert (λ n x. x % 256 ^ n))
    ∷ op be true (convert swap_bytes)
    ∷ []
