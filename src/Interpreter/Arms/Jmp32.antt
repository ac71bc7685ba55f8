-- ===== src/Interpreter/Arms/Jmp32.antt =====
-- casestudy/sbpf/src/interpreter.rs: the arms of `step` for BPF_JMP32.
use aeneas2isabelle.Prelude.{not, List, [], ◌∷◌, ltb, leb, ◌==◌, bit_and}
use aeneas2isabelle.Prelude.Int.{leb_ℤ}
use aeneas2isabelle.Ebpf.Insn.{Insn}
use aeneas2isabelle.Program.{SbpfVersion, enable_jmp32}
use aeneas2isabelle.Interpreter.Words.{as_u32, as_i32, imm_i32, imm_u32, ltb_ℤ}
use aeneas2isabelle.Interpreter.Arms.{Op, op, jump_imm, jump_reg}
use aeneas2isabelle.Ebpf.Opcodes.Jump.{
  jeq32_imm, jeq32_reg, jge32_imm, jge32_reg, jgt32_imm, jgt32_reg, jle32_imm, jle32_reg, jlt32_imm,
  jlt32_reg, jne32_imm, jne32_reg, jset32_imm, jset32_reg, jsge32_imm, jsge32_reg, jsgt32_imm,
  jsgt32_reg, jsle32_imm, jsle32_reg, jslt32_imm, jslt32_reg,
}

unfoldable pub jmp32_ops : SbpfVersion → Insn → List Op
jmp32_ops version insn =
    op jeq32_imm (enable_jmp32 version) (jump_imm (λ d. (as_u32 d) == (imm_u32 insn.imm)))
    ∷ op jeq32_reg (enable_jmp32 version) (jump_reg (λ d s. (as_u32 d) == (as_u32 s)))
    ∷ op jgt32_imm (enable_jmp32 version) (jump_imm (λ d. ltb (imm_u32 insn.imm) (as_u32 d)))
    ∷ op jgt32_reg (enable_jmp32 version) (jump_reg (λ d s. ltb (as_u32 s) (as_u32 d)))
    ∷ op jge32_imm (enable_jmp32 version) (jump_imm (λ d. leb (imm_u32 insn.imm) (as_u32 d)))
    ∷ op jge32_reg (enable_jmp32 version) (jump_reg (λ d s. leb (as_u32 s) (as_u32 d)))
    ∷ op jlt32_imm (enable_jmp32 version) (jump_imm (λ d. ltb (as_u32 d) (imm_u32 insn.imm)))
    ∷ op jlt32_reg (enable_jmp32 version) (jump_reg (λ d s. ltb (as_u32 d) (as_u32 s)))
    ∷ op jle32_imm (enable_jmp32 version) (jump_imm (λ d. leb (as_u32 d) (imm_u32 insn.imm)))
    ∷ op jle32_reg (enable_jmp32 version) (jump_reg (λ d s. leb (as_u32 d) (as_u32 s)))
    ∷ op jset32_imm (enable_jmp32 version)
        (jump_imm (λ d. not (bit_and (as_u32 d) (imm_u32 insn.imm) == 0)))
    ∷ op jset32_reg (enable_jmp32 version)
        (jump_reg (λ d s. not (bit_and (as_u32 d) (as_u32 s) == 0)))
    ∷ op jne32_imm (enable_jmp32 version) (jump_imm (λ d. not ((as_u32 d) == (imm_u32 insn.imm))))
    ∷ op jne32_reg (enable_jmp32 version) (jump_reg (λ d s. not ((as_u32 d) == (as_u32 s))))
    ∷ op jsgt32_imm (enable_jmp32 version) (jump_imm (λ d. ltb_ℤ (imm_i32 insn.imm) (as_i32 d)))
    ∷ op jsgt32_reg (enable_jmp32 version) (jump_reg (λ d s. ltb_ℤ (as_i32 s) (as_i32 d)))
    ∷ op jsge32_imm (enable_jmp32 version) (jump_imm (λ d. leb_ℤ (imm_i32 insn.imm) (as_i32 d)))
    ∷ op jsge32_reg (enable_jmp32 version) (jump_reg (λ d s. leb_ℤ (as_i32 s) (as_i32 d)))
    ∷ op jslt32_imm (enable_jmp32 version) (jump_imm (λ d. ltb_ℤ (as_i32 d) (imm_i32 insn.imm)))
    ∷ op jslt32_reg (enable_jmp32 version) (jump_reg (λ d s. ltb_ℤ (as_i32 d) (as_i32 s)))
    ∷ op jsle32_imm (enable_jmp32 version) (jump_imm (λ d. leb_ℤ (as_i32 d) (imm_i32 insn.imm)))
    ∷ op jsle32_reg (enable_jmp32 version) (jump_reg (λ d s. leb_ℤ (as_i32 d) (as_i32 s)))
    ∷ []
