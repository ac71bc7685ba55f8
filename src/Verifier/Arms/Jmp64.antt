-- ===== src/Verifier/Arms/Jmp64.antt =====
-- casestudy/sbpf/src/verifier.rs: the arms of `verify` for BPF_JMP64, calls and exit.
use aeneas2isabelle.Prelude.{List, [], ◌∷◌, true}
use aeneas2isabelle.Ebpf.Opcodes.Jump.{
  call_imm, call_reg, exit, ja, jeq64_imm, jeq64_reg, jge64_imm, jge64_reg, jgt64_imm, jgt64_reg,
  jle64_imm, jle64_reg, jlt64_imm, jlt64_reg, jne64_imm, jne64_reg, jset64_imm, jset64_reg,
  jsge64_imm, jsge64_reg, jsgt64_imm, jsgt64_reg, jsle64_imm, jsle64_reg, jslt64_imm, jslt64_reg,
}
use aeneas2isabelle.Verifier.Arms.{Arm, arm, callx, jump, plain}

abbrev pub jmp64_arms : List Arm
jmp64_arms =
    arm ja true jump
    ∷ arm jeq64_imm true jump
    ∷ arm jeq64_reg true jump
    ∷ arm jgt64_imm true jump
    ∷ arm jgt64_reg true jump
    ∷ arm jge64_imm true jump
    ∷ arm jge64_reg true jump
    ∷ arm jlt64_imm true jump
    ∷ arm jlt64_reg true jump
    ∷ arm jle64_imm true jump
    ∷ arm jle64_reg true jump
    ∷ arm jset64_imm true jump
    ∷ arm jset64_reg true jump
    ∷ arm jne64_imm true jump
    ∷ arm jne64_reg true jump
    ∷ arm jsgt64_imm true jump
    ∷ arm jsgt64_reg true jump
    ∷ arm jsge64_imm true jump
    ∷ arm jsge64_reg true jump
    ∷ arm jslt64_imm true jump
    ∷ arm jslt64_reg true jump
    ∷ arm jsle64_imm true jump
    ∷ arm jsle64_reg true jump
    ∷ arm call_imm true plain
    ∷ arm call_reg true callx
    ∷ arm exit true plain
    ∷ []
