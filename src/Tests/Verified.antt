-- ===== src/Tests/Verified.antt =====
-- The theorems on the verifier at a program that jumps over an instruction.
use aeneas2isabelle.Prelude.{ℕ, ◌/◌, ◌<◌, ◌≡◌, ◌≢◌, refl, some, List, [], ◌∷◌, arith, length}
use aeneas2isabelle.Prelude.Int.{pos, ◌+ℤ◌}
use aeneas2isabelle.Ebpf.Opcodes.{insn_size}
use aeneas2isabelle.Ebpf.Insn.{Insn, get_insn, get_insn_unchecked, read_i16, read_i32}
use aeneas2isabelle.Program.{v0, v3}
use aeneas2isabelle.Verifier.Types.{accepted, rejected, panic, jump_out_of_code}
use aeneas2isabelle.Verifier.Arms.{Check, jump}
use aeneas2isabelle.Verifier.Verify.{check_of, verify, verify_insn}
use aeneas2isabelle.Verifier.Checks.{check_jmp_offset}
use aeneas2isabelle.Verifier.Verify.Returns.{verify-Returns}
use aeneas2isabelle.Verifier.Verify.Accepted.{
  IsReadFrom, here, next, IsChecked, verify-IsChecked, verify-jumps,
}
use aeneas2isabelle.Verifier.Verify.Branches.{verify-branch_target}
use aeneas2isabelle.Jit.Result.{ok}
use aeneas2isabelle.Jit.Lower.{branch_target}

abbrev skip : List ℕ
skip =
    0xb7 ∷ 0 ∷ 0 ∷ 0 ∷ 1 ∷ 0 ∷ 0 ∷ 0 ∷ 0x05 ∷ 0 ∷ 1 ∷ 0 ∷ 0 ∷ 0 ∷ 0 ∷ 0 ∷ 0xb7 ∷ 0 ∷ 0 ∷ 0 ∷ 2 ∷ 0
    ∷ 0 ∷ 0 ∷ 0x95 ∷ 0 ∷ 0 ∷ 0 ∷ 0 ∷ 0 ∷ 0 ∷ 0 ∷ []

abbrev over : Insn
over = record { ptr = 1; opc = 0x05; dst = 0; src = 0; off = pos 1; imm = pos 0 }

accepts_skip : verify skip v3 ≡ accepted tt
unfolding verify verify_insn get_insn get_insn_unchecked read_i16 read_i32 check_jmp_offset ◌+ℤ◌
accepts_skip = refl

rejects_jump_past_the_end :
    verify (0x05 ∷ 0 ∷ 1 ∷ 0 ∷ 0 ∷ 0 ∷ 0 ∷ 0 ∷ []) v0 ≡ rejected (jump_out_of_code 2 0)
unfolding verify verify_insn get_insn get_insn_unchecked read_i16 read_i32 check_jmp_offset ◌+ℤ◌
rejects_jump_past_the_end = refl

skip-over : get_insn skip 1 ≡ some over
unfolding get_insn get_insn_unchecked read_i16 read_i32
skip-over = refl

over-jump : check_of v3 over ≡ some jump
unfolding check_of
over-jump = refl

skip-IsReadFrom : IsReadFrom skip v3 0 1
unfolding get_insn get_insn_unchecked read_i16 read_i32 check_of
skip-IsReadFrom = next 0 1 _ _ refl refl (here 1)

verify-Returns_example : verify skip v3 ≡ panic → ⊥
verify-Returns_example = verify-Returns skip v3 (omega arith)

verify-IsChecked_example : (i : Insn) × (check : Check) × IsChecked skip v3 1 i check
verify-IsChecked_example = verify-IsChecked skip v3 1 accepts_skip skip-IsReadFrom (omega arith)

verify-jumps_example :
    (t : ℕ) × (target : Insn) × (pos 1 +ℤ pos 1 +ℤ pos 1 ≡ pos t)
    × (t < length skip / insn_size)
    × (get_insn skip t ≡ some target)
    × (target.opc ≢ 0)
verify-jumps_example =
    verify-jumps skip v3 1 over accepts_skip skip-IsReadFrom (omega arith) skip-over over-jump

verify-branch_target_example :
    (t : ℕ) × (branch_target 1 (pos 1) ≡ ok t) × (t < length skip / insn_size)
verify-branch_target_example =
    verify-branch_target skip v3 1 over (omega arith) accepts_skip skip-IsReadFrom (omega arith)
      skip-over over-jump
