-- ===== src/Interpreter/Arms/Jmp64.antt =====
-- casestudy/sbpf/src/interpreter.rs: the arms of `step` for BPF_JMP64.
use aeneas2isabelle.Prelude.{true, not, List, [], ◌∷◌, ltb, leb, ◌==◌, bit_and}
use aeneas2isabelle.Prelude.Int.{leb_ℤ}
use aeneas2isabelle.Ebpf.Insn.{Insn}
use aeneas2isabelle.Interpreter.Words.{as_i64, imm_u64, ltb_ℤ}
use aeneas2isabelle.Interpreter.Arms.{
  Op, op, jump_always, jump_imm, jump_reg, call_register, call_immediate, exit_frame,
}
use aeneas2isabelle.Ebpf.Opcodes.Jump.{
  call_imm, call_reg, exit, ja, jeq64_imm, jeq64_reg, jge64_imm, jge64_reg, jgt64_imm, jgt64_reg,
  jle64_imm, jle64_reg, jlt64_imm, jlt64_reg, jne64_imm, jne64_reg, jset64_imm, jset64_reg,
  jsge64_imm, jsge64_reg, jsgt64_imm, jsgt64_reg, jsle64_imm, jsle64_reg, jslt64_imm, jslt64_reg,
}

unfoldable pub jmp64_ops : Insn → List Op
jmp64_ops insn =
    op ja true jump_always
    ∷ op jeq64_imm true (jump_imm (λ d. (d) == (imm_u64 insn.imm)))
    ∷ op jeq64_reg true (jump_reg (λ d s. (d) == (s)))
    ∷ op jgt64_imm true (jump_imm (λ d. ltb (imm_u64 insn.imm) (d)))
    ∷ op jgt64_reg true (jump_reg (λ d s. ltb (s) (d)))
    ∷ op jge64_imm true (jump_imm (λ d. leb (imm_u64 insn.imm) (d)))
    ∷ op jge64_reg true (jump_reg (λ d s. leb (s) (d)))
    ∷ op jlt64_imm true (jump_imm (λ d. ltb (d) (imm_u64 insn.imm)))
    ∷ op jlt64_reg true (jump_reg (λ d s. ltb (d) (s)))
    ∷ op jle64_imm true (jump_imm (λ d. leb (d) (imm_u64 insn.imm)))
    ∷ op jle64_reg true (jump_reg (λ d s. leb (d) (s)))
    ∷ op jset64_imm true (jump_imm (λ d. not (bit_and (d) (imm_u64 insn.imm) == 0)))
    ∷ op jset64_reg true (jump_reg (λ d s. not (bit_and (d) (s) == 0)))
    ∷ op jne64_imm true (jump_imm (λ d. not ((d) == (imm_u64 insn.imm))))
    ∷ op jne64_reg true (jump_reg (λ d s. not ((d) == (s))))
    ∷ op jsgt64_imm true (jump_imm (λ d. ltb_ℤ (insn.imm) (as_i64 d)))
    ∷ op jsgt64_reg true (jump_reg (λ d s. ltb_ℤ (as_i64 s) (as_i64 d)))
    ∷ op jsge64_imm true (jump_imm (λ d. leb_ℤ (insn.imm) (as_i64 d)))
    ∷ op jsge64_reg true (jump_reg (λ d s. leb_ℤ (as_i64 s) (as_i64 d)))
    ∷ op jslt64_imm true (jump_imm (λ d. ltb_ℤ (as_i64 d) (insn.imm)))
    ∷ op jslt64_reg true (jump_reg (λ d s. ltb_ℤ (as_i64 d) (as_i64 s)))
    ∷ op jsle64_imm true (jump_imm (λ d. leb_ℤ (as_i64 d) (insn.imm)))
    ∷ op jsle64_reg true (jump_reg (λ d s. leb_ℤ (as_i64 d) (as_i64 s)))
    ∷ op call_reg true call_register
    ∷ op call_imm true call_immediate
    ∷ op exit true exit_frame
    ∷ []
