-- ===== src/Verifier/Arms/Pqr.antt =====
-- casestudy/sbpf/src/verifier.rs: the arms of `verify` for BPF_PQR.
use aeneas2isabelle.Prelude.{List, [], ◌∷◌}
use aeneas2isabelle.Ebpf.Opcodes.Pqr.{
  lmul32_imm, lmul32_reg, lmul64_imm, lmul64_reg, sdiv32_imm, sdiv32_reg, sdiv64_imm, sdiv64_reg,
  shmul64_imm, shmul64_reg, srem32_imm, srem32_reg, srem64_imm, srem64_reg, udiv32_imm, udiv32_reg,
  udiv64_imm, udiv64_reg, uhmul64_imm, uhmul64_reg, urem32_imm, urem32_reg, urem64_imm, urem64_reg,
}
use aeneas2isabelle.Program.{SbpfVersion, enable_pqr}
use aeneas2isabelle.Verifier.Arms.{Arm, arm, nonzero, plain}

abbrev pub pqr_arms : SbpfVersion → List Arm
pqr_arms version =
    arm lmul32_imm (enable_pqr version) plain
    ∷ arm lmul32_reg (enable_pqr version) plain
    ∷ arm lmul64_imm (enable_pqr version) plain
    ∷ arm lmul64_reg (enable_pqr version) plain
    ∷ arm uhmul64_imm (enable_pqr version) plain
    ∷ arm uhmul64_reg (enable_pqr version) plain
    ∷ arm shmul64_imm (enable_pqr version) plain
    ∷ arm shmul64_reg (enable_pqr version) plain
    ∷ arm udiv32_imm (enable_pqr version) nonzero
    ∷ arm udiv32_reg (enable_pqr version) plain
    ∷ arm udiv64_imm (enable_pqr version) nonzero
    ∷ arm udiv64_reg (enable_pqr version) plain
    ∷ arm urem32_imm (enable_pqr version) nonzero
    ∷ arm urem32_reg (enable_pqr version) plain
    ∷ arm urem64_imm (enable_pqr version) nonzero
    ∷ arm urem64_reg (enable_pqr version) plain
    ∷ arm sdiv32_imm (enable_pqr version) nonzero
    ∷ arm sdiv32_reg (enable_pqr version) plain
    ∷ arm sdiv64_imm (enable_pqr version) nonzero
    ∷ arm sdiv64_reg (enable_pqr version) plain
    ∷ arm srem32_imm (enable_pqr version) nonzero
    ∷ arm srem32_reg (enable_pqr version) plain
    ∷ arm srem64_imm (enable_pqr version) nonzero
    ∷ arm srem64_reg (enable_pqr version) plain
    ∷ []
