-- ===== src/Interpreter/Safety/Checked.antt =====
-- What the checks of the verifier give the interpreter.
use aeneas2isabelle.Prelude.{
  ℕ, ◌+◌, ◌*◌, ◌/◌, ◌%◌, ◌<◌, ◌≡◌, Bool, false, not, some, List, ltb, leb, length, arith, ◌==◌,
  if◌then◌else◌, ◌≢◌,
}
use aeneas2isabelle.Prelude.Int.{ℤ, pos, negsuc, ◌+ℤ◌, IsI32}
use aeneas2isabelle.Ebpf.Opcodes.{insn_size}
use aeneas2isabelle.Ebpf.Insn.{Insn, get_insn, usize_max}
use aeneas2isabelle.Program.{SbpfVersion, callx_uses_src_reg, callx_uses_dst_reg}
use aeneas2isabelle.Verifier.Types.{accepted}
use aeneas2isabelle.Verifier.Checks.{
  reject_if, check_registers, check_destination, check_imm_nonzero, check_callx_register,
  check_load_dw, check_prog_len,
}
use aeneas2isabelle.Verifier.Arms.{Check}
use aeneas2isabelle.Verifier.Verify.{run_check, verify}
use aeneas2isabelle.Verifier.Verify.Returns.{reject_if-eq-accepted}
use aeneas2isabelle.Verifier.Verify.Accepted.{bind-eq-accepted, jump-eq-accepted}
use aeneas2isabelle.Interpreter.Words.{imm_u64}
use aeneas2isabelle.Interpreter.Arms.{
  Divisor, as_unsigned32, as_unsigned64, as_signed32, as_signed64, is_zero,
}

check_destination-le :
    (insn : Insn) (store : Bool) (p : ℕ) (version : SbpfVersion)
    → check_destination insn store p version ≡ accepted tt
    → insn.dst < 11
check_destination-le insn store p version h = ground arith

pub check_registers-le :
    (insn : Insn) (store : Bool) (p : ℕ) (version : SbpfVersion)
    → check_registers insn store p version ≡ accepted tt
    → (insn.src < 11) × (insn.dst < 11)
unfolding check_registers
check_registers-le insn store p version h =
    let (_, e, h₁) = bind-eq-accepted (reject_if (ltb 10 insn.src) _) _ h in
    (ground (arith, reject_if-eq-accepted _ _ e), check_destination-le insn store p version h₁)

is_zero-ne : (divisor : Divisor) (z : ℤ) → IsI32 z → z ≢ pos 0 → is_zero divisor z ≡ false
is_zero-ne as_unsigned32 (pos n) small other = ground arith
is_zero-ne as_unsigned32 (negsuc n) small other = ground arith
is_zero-ne as_unsigned64 (pos n) small other = ground arith
is_zero-ne as_unsigned64 (negsuc n) small other = ground arith
is_zero-ne as_signed32 (pos n) small other = ground arith
is_zero-ne as_signed32 (negsuc n) small other = ground arith
is_zero-ne as_signed64 (pos n) small other = ground arith
is_zero-ne as_signed64 (negsuc n) small other = ground arith

pub nonzero-is_zero :
    (divisor : Divisor) (prog : List ℕ) (insn : Insn) (p : ℕ) (version : SbpfVersion)
    → IsI32 insn.imm
    → run_check Check.nonzero prog insn p version ≡ accepted tt
    → is_zero divisor insn.imm ≡ false
unfolding run_check check_imm_nonzero
nonzero-is_zero divisor prog insn p version small h =
    is_zero-ne divisor insn.imm small (λ e. absurd (let h' = rw e at h in cc))

pub callx_fits :
    (prog : List ℕ) (insn : Insn) (p : ℕ) (version : SbpfVersion)
    → run_check Check.callx prog insn p version ≡ accepted tt
    → (if callx_uses_src_reg version
        then insn.src
        else if callx_uses_dst_reg version
        then insn.dst
        else imm_u64 insn.imm)
      < 12
unfolding run_check check_callx_register
callx_fits prog insn p version h = ground (arith, reject_if-eq-accepted _ _ h)

jump_word :
    (p t : ℕ) (off : ℤ)
    → pos p +ℤ pos 1 +ℤ off ≡ pos t
    → t < usize_max
    → imm_u64 (pos (p + 1) +ℤ off) ≡ t
unfolding ◌+ℤ◌
jump_word p t (pos n) e small = ground arith
jump_word p t (negsuc n) e small = ground arith

pub jump_inside :
    (prog : List ℕ) (insn : Insn) (p : ℕ) (version : SbpfVersion)
    → get_insn prog p ≡ some insn
    → length prog < usize_max
    → run_check Check.jump prog insn p version ≡ accepted tt
    → imm_u64 (pos (p + 1) +ℤ insn.off) < length prog / insn_size
jump_inside prog insn p version found small h =
    let (t, _, e, below, _, _) = jump-eq-accepted prog version p insn insn found h in
    omega (arith, jump_word p t insn.off e (omega arith))

pub load_dw_inside :
    (prog : List ℕ) (insn : Insn) (p : ℕ) (version : SbpfVersion)
    → verify prog version ≡ accepted tt
    → run_check Check.load_dw prog insn p version ≡ accepted tt
    → p + 1 < length prog / insn_size
unfolding verify run_check check_load_dw check_prog_len
load_dw_inside prog insn p version v h =
    let (_, e, _) = bind-eq-accepted (check_prog_len prog) _ v in
    let (_, e₁, _) = bind-eq-accepted (reject_if (not (length prog % insn_size == 0)) _) _ e in
    let (_, e₂, _) = bind-eq-accepted (reject_if (leb (length prog) ((p + 1) * insn_size)) _) _ h in
    ground (arith, reject_if-eq-accepted _ _ e₁, reject_if-eq-accepted _ _ e₂)
