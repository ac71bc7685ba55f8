-- ===== src/Verifier/Checks.antt =====
-- casestudy/sbpf/src/verifier.rs: the checks of one instruction. Arithmetic on program counters is
-- that of a release build on a 64-bit target, which never overflows on a program in memory.
use aeneas2isabelle.Prelude.{
  ℕ, ◌+◌, ◌*◌, ◌%◌, ◌-◌, ◌^◌, Bool, false, not, ◌&&◌, ◌||◌, List, ltb, leb, ◌==◌, if◌then◌else◌,
  length, bit_and,
}
use aeneas2isabelle.Prelude.Int.{ℤ, pos, negsuc, ◌+ℤ◌, wrap, leb_ℤ}
use aeneas2isabelle.Ebpf.Opcodes.{insn_size}
use aeneas2isabelle.Ebpf.Opcodes.Alu.{add64_imm}
use aeneas2isabelle.Ebpf.Insn.{Insn, get_insn}
use aeneas2isabelle.Program.{
  SbpfVersion, manual_stack_frame_bump, callx_uses_src_reg, callx_uses_dst_reg,
}
use aeneas2isabelle.Verifier.Types.{
  VerifierError, program_length_not_multiple, no_program, division_by_zero,
  unsupported_lebe_argument, lddw_cannot_be_last, incomplete_lddw, jump_out_of_code,
  jump_to_middle_of_lddw, invalid_source_register, cannot_write_r10, invalid_destination_register,
  shift_with_overflow, invalid_register, unaligned_immediate, Verdict, accepted, rejected, ◌>>=◌,
  ◌>>◌, read,
}

-- `if condition { return Err(error); } Ok(())`.
abbrev pub reject_if : Bool → VerifierError → Verdict (Unit {0})
reject_if condition error = if condition then rejected error else accepted tt

unfoldable pub check_prog_len : List ℕ → Verdict (Unit {0})
check_prog_len prog = do
  reject_if (not (length prog % insn_size == 0)) program_length_not_multiple
  reject_if (length prog == 0) no_program

abbrev is_int : ℕ → ℤ → Bool
is_int n (pos m) = m == n
is_int n (negsuc m) = false

unfoldable pub check_imm_nonzero : Insn → ℕ → Verdict (Unit {0})
check_imm_nonzero insn insn_ptr = reject_if (is_int 0 insn.imm) (division_by_zero insn_ptr)

unfoldable pub check_imm_endian : Insn → ℕ → Verdict (Unit {0})
check_imm_endian insn insn_ptr =
    if is_int 16 insn.imm || (is_int 32 insn.imm || is_int 64 insn.imm)
    then accepted tt
    else rejected (unsupported_lebe_argument insn_ptr)

-- `alignment` is positive.
unfoldable pub check_imm_aligned : Insn → ℕ → ℕ → Verdict (Unit {0})
check_imm_aligned insn insn_ptr alignment =
    if bit_and (wrap (2 ^ 64) insn.imm) (alignment - 1) == 0
    then accepted tt
    else rejected (unaligned_immediate insn_ptr)

unfoldable pub check_load_dw : List ℕ → ℕ → Verdict (Unit {0})
check_load_dw prog insn_ptr = do
  reject_if (leb (length prog) ((insn_ptr + 1) * insn_size)) lddw_cannot_be_last
  next_insn ← read (get_insn prog (insn_ptr + 1))
  reject_if (not (next_insn.opc == 0)) (incomplete_lddw insn_ptr)

-- A negative target, or one outside `program_range`, which is `0..range_end`.
abbrev pub check_target : List ℕ → ℕ → ℕ → ℤ → Verdict (Unit {0})
check_target prog insn_ptr range_end (negsuc n) =
    rejected (jump_out_of_code (wrap (2 ^ 64) (negsuc n)) insn_ptr)
check_target prog insn_ptr range_end (pos dst) = do
  reject_if (not (ltb dst range_end)) (jump_out_of_code dst insn_ptr)
  dst_insn ← read (get_insn prog dst)
  reject_if (dst_insn.opc == 0) (jump_to_middle_of_lddw dst insn_ptr)

unfoldable pub check_jmp_offset : List ℕ → ℕ → ℕ → Verdict (Unit {0})
unfolding ◌+ℤ◌
check_jmp_offset prog insn_ptr range_end = read (get_insn prog insn_ptr) >>= λ insn.
    check_target prog insn_ptr range_end (pos insn_ptr +ℤ pos 1 +ℤ insn.off)

-- The `match (insn.dst, store)`.
abbrev pub check_destination : Insn → Bool → ℕ → SbpfVersion → Verdict (Unit {0})
check_destination insn store insn_ptr version =
    if leb insn.dst 9 || ((insn.dst == 10) && store)
    then accepted tt
    else if (insn.dst == 10) && (manual_stack_frame_bump version && (insn.opc == add64_imm))
    then accepted tt
    else if insn.dst == 10
    then rejected (cannot_write_r10 insn_ptr)
    else rejected (invalid_destination_register insn_ptr)

unfoldable pub check_registers : Insn → Bool → ℕ → SbpfVersion → Verdict (Unit {0})
check_registers insn store insn_ptr version = do
  reject_if (ltb 10 insn.src) (invalid_source_register insn_ptr)
  check_destination insn store insn_ptr version

unfoldable pub check_imm_shift : Insn → ℕ → ℕ → Verdict (Unit {0})
check_imm_shift insn insn_ptr imm_bits =
    let shift_by = wrap (2 ^ 64) insn.imm in
    reject_if (not (leb_ℤ (pos 0) insn.imm) || leb imm_bits shift_by)
      (shift_with_overflow shift_by imm_bits insn_ptr)

abbrev callx_register : Insn → SbpfVersion → ℤ
callx_register insn version =
    if callx_uses_src_reg version
    then pos insn.src
    else if callx_uses_dst_reg version
    then pos insn.dst
    else insn.imm

unfoldable pub check_callx_register : Insn → ℕ → SbpfVersion → Verdict (Unit {0})
check_callx_register insn insn_ptr version =
    let reg = callx_register insn version in
    reject_if (not (leb_ℤ (pos 0) reg && leb_ℤ reg (pos 9))) (invalid_register insn_ptr)
