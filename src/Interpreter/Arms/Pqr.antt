-- ===== src/Interpreter/Arms/Pqr.antt =====
-- casestudy/sbpf/src/interpreter.rs: the arms of `step` for BPF_PQR.
use aeneas2isabelle.Prelude.{◌*◌, ◌/◌, ◌%◌, ◌^◌, false, ◌&&◌, List, [], ◌∷◌, ◌==◌}
use aeneas2isabelle.Prelude.Int.{pos, negsuc, wrap, i32_min}
use aeneas2isabelle.Ebpf.Insn.{Insn}
use aeneas2isabelle.Program.{SbpfVersion, enable_pqr}
use aeneas2isabelle.Interpreter.Words.{
  as_u32, as_i32, as_i64, imm_i32, imm_u32, imm_u64, ◌*ℤ◌, eq_ℤ, wrapping_mul, shift_right,
  quotient, remainder, i64_min,
}
use aeneas2isabelle.Interpreter.Arms.{
  as_unsigned32, as_signed32, as_signed64, Op, op, set_dst, set_both, divide_imm, divide_reg,
}
use aeneas2isabelle.Ebpf.Opcodes.Pqr.{
  lmul32_imm, lmul32_reg, lmul64_imm, lmul64_reg, sdiv32_imm, sdiv32_reg, sdiv64_imm, sdiv64_reg,
  shmul64_imm, shmul64_reg, srem32_imm, srem32_reg, srem64_imm, srem64_reg, udiv32_imm, udiv32_reg,
  udiv64_imm, udiv64_reg, uhmul64_imm, uhmul64_reg, urem32_imm, urem32_reg, urem64_imm, urem64_reg,
}

unfoldable pub pqr_ops : SbpfVersion → Insn → List Op
pqr_ops version insn =
    op lmul32_imm (enable_pqr version)
      (set_dst (λ d. wrapping_mul 32 (as_u32 d) (imm_u32 insn.imm)))
    ∷ op lmul32_reg (enable_pqr version) (set_both (λ d s. wrapping_mul 32 (as_u32 d) (as_u32 s)))
    ∷ op lmul64_imm (enable_pqr version) (set_dst (λ d. wrapping_mul 64 (d) (imm_u64 insn.imm)))
    ∷ op lmul64_reg (enable_pqr version) (set_both (λ d s. wrapping_mul 64 (d) (s)))
    ∷ op uhmul64_imm (enable_pqr version) (set_dst (λ d. d * (imm_u32 insn.imm) / 2 ^ 64))
    ∷ op uhmul64_reg (enable_pqr version) (set_both (λ d s. d * (s) / 2 ^ 64))
    ∷ op shmul64_imm (enable_pqr version)
        (set_dst (λ d. wrap (2 ^ 64) (shift_right (as_i64 d *ℤ insn.imm) 64)))
    ∷ op shmul64_reg (enable_pqr version)
        (set_both (λ d s. wrap (2 ^ 64) (shift_right (as_i64 d *ℤ as_i64 s) 64)))
    ∷ op udiv32_imm (enable_pqr version)
        (divide_imm as_unsigned32 (λ d. false) (λ d. (as_u32 d) / (imm_u32 insn.imm)))
    ∷ op udiv32_reg (enable_pqr version)
        (divide_reg (λ s. (as_u32 s) == 0) (λ d s. false) (λ d s. (as_u32 d) / (as_u32 s)))
    ∷ op udiv64_imm (enable_pqr version)
        (divide_imm as_unsigned32 (λ d. false) (λ d. (d) / (imm_u32 insn.imm)))
    ∷ op udiv64_reg (enable_pqr version)
        (divide_reg (λ s. (s) == 0) (λ d s. false) (λ d s. (d) / (s)))
    ∷ op urem32_imm (enable_pqr version)
        (divide_imm as_unsigned32 (λ d. false) (λ d. (as_u32 d) % (imm_u32 insn.imm)))
    ∷ op urem32_reg (enable_pqr version)
        (divide_reg (λ s. (as_u32 s) == 0) (λ d s. false) (λ d s. (as_u32 d) % (as_u32 s)))
    ∷ op urem64_imm (enable_pqr version)
        (divide_imm as_unsigned32 (λ d. false) (λ d. (d) % (imm_u32 insn.imm)))
    ∷ op urem64_reg (enable_pqr version)
        (divide_reg (λ s. (s) == 0) (λ d s. false) (λ d s. (d) % (s)))
    ∷ op sdiv32_imm (enable_pqr version) (
        divide_imm as_signed32 (λ d. eq_ℤ (as_i32 d) i32_min && eq_ℤ (imm_i32 insn.imm) (negsuc 0))
          (λ d. wrap (2 ^ 32) (quotient (as_i32 d) (imm_i32 insn.imm))))
    ∷ op sdiv32_reg (enable_pqr version) (
        divide_reg (λ s. eq_ℤ (as_i32 s) (pos 0))
          (λ d s. eq_ℤ (as_i32 d) i32_min && eq_ℤ (as_i32 s) (negsuc 0))
          (λ d s. wrap (2 ^ 32) (quotient (as_i32 d) (as_i32 s))))
    ∷ op sdiv64_imm (enable_pqr version) (
        divide_imm as_signed64 (λ d. eq_ℤ (as_i64 d) i64_min && eq_ℤ (insn.imm) (negsuc 0))
          (λ d. wrap (2 ^ 64) (quotient (as_i64 d) (insn.imm))))
    ∷ op sdiv64_reg (enable_pqr version) (
        divide_reg (λ s. eq_ℤ (as_i64 s) (pos 0))
          (λ d s. eq_ℤ (as_i64 d) i64_min && eq_ℤ (as_i64 s) (negsuc 0))
          (λ d s. wrap (2 ^ 64) (quotient (as_i64 d) (as_i64 s))))
    ∷ op srem32_imm (enable_pqr version) (
        divide_imm as_signed32 (λ d. eq_ℤ (as_i32 d) i32_min && eq_ℤ (imm_i32 insn.imm) (negsuc 0))
          (λ d. wrap (2 ^ 32) (remainder (as_i32 d) (imm_i32 insn.imm))))
    ∷ op srem32_reg (enable_pqr version) (
        divide_reg (λ s. eq_ℤ (as_i32 s) (pos 0))
          (λ d s. eq_ℤ (as_i32 d) i32_min && eq_ℤ (as_i32 s) (negsuc 0))
          (λ d s. wrap (2 ^ 32) (remainder (as_i32 d) (as_i32 s))))
    ∷ op srem64_imm (enable_pqr version) (
        divide_imm as_signed64 (λ d. eq_ℤ (as_i64 d) i64_min && eq_ℤ (insn.imm) (negsuc 0))
          (λ d. wrap (2 ^ 64) (remainder (as_i64 d) (insn.imm))))
    ∷ op srem64_reg (enable_pqr version) (
        divide_reg (λ s. eq_ℤ (as_i64 s) (pos 0))
          (λ d s. eq_ℤ (as_i64 d) i64_min && eq_ℤ (as_i64 s) (negsuc 0))
          (λ d s. wrap (2 ^ 64) (remainder (as_i64 d) (as_i64 s))))
    ∷ []
