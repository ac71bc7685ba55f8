-- ===== src/Verifier/Verify.antt =====
-- casestudy/sbpf/src/verifier.rs: `RequisiteVerifier::verify`. Its loop makes at most one round for
-- each instruction, so that the length of the program in instructions bounds its rounds.
pub mod Returns
pub mod Accepted
pub mod Branches
use aeneas2isabelle.Prelude.{
  ℕ, zero, suc, ◌+◌, ◌*◌, ◌/◌, Bool, true, false, not, ◌&&◌, Option, none, some, List, [], ◌∷◌,
  ◌++◌, leb, ◌==◌, if◌then◌else◌, length,
}
use aeneas2isabelle.Ebpf.Opcodes.{insn_size}
use aeneas2isabelle.Ebpf.Insn.{Insn, get_insn}
use aeneas2isabelle.Program.{SbpfVersion}
use aeneas2isabelle.Verifier.Types.{
  Verdict, accepted, rejected, ◌>>=◌, ◌>>◌, read, jump_out_of_code, unknown_op_code,
}
use aeneas2isabelle.Verifier.Checks.{
  reject_if, check_prog_len, check_imm_nonzero, check_imm_endian, check_imm_aligned, check_load_dw,
  check_jmp_offset, check_registers, check_imm_shift, check_callx_register,
}
use aeneas2isabelle.Verifier.Arms.{
  Arm, Check, plain, store, load_dw, nonzero, endian, jump, callx, shift, aligned,
}
use aeneas2isabelle.Verifier.Arms.Memory.{memory_arms}
use aeneas2isabelle.Verifier.Arms.Alu32.{alu32_arms}
use aeneas2isabelle.Verifier.Arms.Alu64.{alu64_arms}
use aeneas2isabelle.Verifier.Arms.Pqr.{pqr_arms}
use aeneas2isabelle.Verifier.Arms.Jmp32.{jmp32_arms}
use aeneas2isabelle.Verifier.Arms.Jmp64.{jmp64_arms}

unfoldable pub first_arm : ℕ → List Arm → Option Check
first_arm opcode [] = none
first_arm opcode (a ∷ arms) =
    let rest = first_arm opcode arms in
    if (a.opcode == opcode) && a.guard then some a.check else rest

unfoldable pub check_of : SbpfVersion → Insn → Option Check
unfolding first_arm
check_of version insn = first_arm insn.opc (
    memory_arms version
    ++ (alu32_arms version
        ++ (alu64_arms version insn ++ (pqr_arms version ++ (jmp32_arms version ++ jmp64_arms)))))

-- The body of an arm.
unfoldable pub run_check : Check → List ℕ → Insn → ℕ → SbpfVersion → Verdict (Unit {0})
run_check plain prog insn insn_ptr version = accepted tt
run_check store prog insn insn_ptr version = accepted tt
run_check load_dw prog insn insn_ptr version = check_load_dw prog insn_ptr
run_check nonzero prog insn insn_ptr version = check_imm_nonzero insn insn_ptr
run_check endian prog insn insn_ptr version = check_imm_endian insn insn_ptr
run_check jump prog insn insn_ptr version = check_jmp_offset prog insn_ptr (length prog / insn_size)
run_check callx prog insn insn_ptr version = check_callx_register insn insn_ptr version
run_check (shift bits) prog insn insn_ptr version = check_imm_shift insn insn_ptr bits
run_check (aligned alignment) prog insn insn_ptr version = check_imm_aligned insn insn_ptr alignment

abbrev pub is_store : Check → Bool
is_store store = true
is_store _ = false

-- Where `insn_ptr` stands after an arm.
abbrev pub after_arm : Check → ℕ → ℕ
after_arm load_dw insn_ptr = insn_ptr + 1
after_arm _ insn_ptr = insn_ptr

abbrev pub known : Option Check → ℕ → ℕ → Verdict Check
known none opcode insn_ptr = rejected (unknown_op_code opcode insn_ptr)
known (some check) opcode insn_ptr = accepted check

-- One round of the loop, with the next `insn_ptr`.
unfoldable pub verify_insn : List ℕ → SbpfVersion → ℕ → Verdict ℕ
unfolding check_of run_check check_registers
verify_insn prog version insn_ptr = do
  insn ← read (get_insn prog insn_ptr)
  check ← known (check_of version insn) insn.opc insn_ptr
  run_check check prog insn insn_ptr version
  check_registers insn (is_store check) (after_arm check insn_ptr) version
  accepted (after_arm check insn_ptr + 1)

unfoldable pub verify_loop : ℕ → List ℕ → SbpfVersion → ℕ → Verdict ℕ
verify_loop zero prog version insn_ptr = accepted insn_ptr
verify_loop (suc rounds) prog version insn_ptr =
    if leb ((insn_ptr + 1) * insn_size) (length prog)
    then (verify_insn prog version insn_ptr >>= λ next. verify_loop rounds prog version next)
    else accepted insn_ptr

unfoldable pub verify : List ℕ → SbpfVersion → Verdict (Unit {0})
unfolding check_prog_len verify_loop
verify prog version = do
  check_prog_len prog
  insn_ptr ← verify_loop (length prog / insn_size) prog version 0
  reject_if (not (insn_ptr == length prog / insn_size)) (jump_out_of_code insn_ptr insn_ptr)
