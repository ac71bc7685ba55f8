-- ===== src/Verifier/Arms/Jmp32.antt =====
-- casestudy/sbpf/src/verifier.rs: the arms of `verify` for BPF_JMP32.
use aeneas2isabelle.Prelude.{List, [], ◌∷◌}
use aeneas2isabelle.Ebpf.Opcodes.Jump.{
  jeq32_imm, jeq32_reg, jge32_imm, jge32_reg, jgt32_imm, jgt32_reg, jle32_imm, jle32_reg, jlt32_imm,
  jlt32_reg, jne32_imm, jne32_reg, jset32_imm, jset32_reg, jsge32_imm, jsge32_reg, jsgt32_imm,
  jsgt32_reg, jsle32_imm, jsle32_reg, jslt32_imm, jslt32_reg,
}
use aeneas2isabelle.Program.{SbpfVersion, enable_jmp32}
use aeneas2isabelle.Verifier.Arms.{Arm, arm, jump}

abbrev pub jmp32_arms : SbpfVersion → List Arm
jmp32_arms version =
    arm jeq32_imm (enable_jmp32 version) jump
    ∷ arm jeq32_reg (enable_jmp32 version) jump
    ∷ arm jgt32_imm (enable_jmp32 version) jump
    ∷ arm jgt32_reg (enable_jmp32 version) jump
    ∷ arm jge32_imm (enable_jmp32 version) jump
    ∷ arm jge32_reg (enable_jmp32 version) jump
    ∷ arm jlt32_imm (enable_jmp32 version) jump
    ∷ arm jlt32_reg (enable_jmp32 version) jump
    ∷ arm jle32_imm (enable_jmp32 version) jump
    ∷ arm jle32_reg (enable_jmp32 version) jump
    ∷ arm jset32_imm (enable_jmp32 version) jump
    ∷ arm jset32_reg (enable_jmp32 version) jump
    ∷ arm jne32_imm (enable_jmp32 version) jump
    ∷ arm jne32_reg (enable_jmp32 version) jump
    ∷ arm jsgt32_imm (enable_jmp32 version) jump
    ∷ arm jsgt32_reg (enable_jmp32 version) jump
    ∷ arm jsge32_imm (enable_jmp32 version) jump
    ∷ arm jsge32_reg (enable_jmp32 version) jump
    ∷ arm jslt32_imm (enable_jmp32 version) jump
    ∷ arm jslt32_reg (enable_jmp32 version) jump
    ∷ arm jsle32_imm (enable_jmp32 version) jump
    ∷ arm jsle32_reg (enable_jmp32 version) jump
    ∷ []
