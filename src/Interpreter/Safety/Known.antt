-- ===== src/Interpreter/Safety/Known.antt =====
-- The arm of the instruction at a program counter.
use aeneas2isabelle.Prelude.{ℕ, ◌+◌, ◌<◌, ◌≡◌, refl, none, some, get_elem?, arith, subst, sym}
use aeneas2isabelle.Ebpf.Insn.{Insn, get_insn}
use aeneas2isabelle.Program.{SbpfVersion, v0, v1, v2, v3, v4, reserved}
use aeneas2isabelle.Verifier.Arms.{Check}
use aeneas2isabelle.Verifier.Verify.{is_store, after_arm}
use aeneas2isabelle.Verifier.Verify.Accepted.{IsChecked, verify-IsChecked}
use aeneas2isabelle.Interpreter.Types.{
  unsupported_instruction, Executable, Host, Interpreter, checked,
}
use aeneas2isabelle.Interpreter.Frames.{pc_reg}
use aeneas2isabelle.Interpreter.Step.{first_op, all_ops, dispatch}
use aeneas2isabelle.Interpreter.Step.Supported.{check_of-first_op}
use aeneas2isabelle.Interpreter.Safety.{IsVerified, IsMetered, IsSound, program_end}
use aeneas2isabelle.Interpreter.Safety.Frames.{throw_error-Safe}
use aeneas2isabelle.Interpreter.Safety.Targets.{SafeBody}
use aeneas2isabelle.Interpreter.Safety.Fetch.{IsFetched}
use aeneas2isabelle.Interpreter.Safety.Checked.{check_registers-le}
use aeneas2isabelle.Interpreter.Safety.Dispatch.{run_body-Safe}
use aeneas2isabelle.Interpreter.Safety.Stops.{Stop, first, second}

-- No arm has the opcode zero.
first_op-zero : (version : SbpfVersion) (insn : Insn) → first_op 0 (all_ops version insn) ≡ none
unfolding first_op all_ops
first_op-zero v0 insn = refl
first_op-zero v1 insn = refl
first_op-zero v2 insn = refl
first_op-zero v3 insn = refl
first_op-zero v4 insn = refl
first_op-zero reserved insn = refl

first_op-none :
    (version : SbpfVersion) (insn : Insn)
    → insn.opc ≡ 0
    → first_op insn.opc (all_ops version insn) ≡ none
first_op-none version insn e =
    subst (λ o. first_op o (all_ops version insn) ≡ none) (sym e) (first_op-zero version insn)

module _ {C : Type 0} (host : Host C) (executable : Executable) where
  known-Safe :
      (pc : ℕ) (insn : Insn) (check : Check) (s : Interpreter C)
      → IsMetered host
      → IsVerified executable
      → IsSound host executable s
      → get_elem? s.reg pc_reg ≡ some pc
      → pc < program_end host executable
      → IsFetched executable.text_bytes pc insn
      → IsChecked executable.text_bytes executable.version pc insn check
      → SafeBody host executable s (
          dispatch host executable
            (first_op insn.opc (all_ops executable.version insn))
            insn
            (pc + 1)
            s)
  unfolding dispatch
  known-Safe pc insn check s m v h at inside f k =
      let (body, e, relies) = check_of-first_op executable.version insn check f.opcode k.arm in
      let (src, dst) =
        check_registers-le insn (is_store check) (after_arm check pc) executable.version
          k.registers in
      rw e (
        run_body-Safe host executable body check pc insn s m v
          (record { sound = h; at = at; inside = inside; dst = dst; src = src; fetched = f })
          k.passed relies)

  pub dispatch-Safe :
      (pc : ℕ) (insn : Insn) (s : Interpreter C)
      → IsMetered host
      → IsVerified executable
      → IsSound host executable s
      → get_elem? s.reg pc_reg ≡ some pc
      → pc < program_end host executable
      → IsFetched executable.text_bytes pc insn
      → Stop executable.text_bytes executable.version pc
      → SafeBody host executable s (
          dispatch host executable
            (first_op insn.opc (all_ops executable.version insn))
            insn
            (pc + 1)
            s)
  unfolding dispatch
  dispatch-Safe pc insn s m v h at inside f (first _ r) =
      let (i, check, checked) =
        verify-IsChecked executable.text_bytes executable.version pc v.verified r (omega arith) in
      let same : i ≡ insn =
        (let e₁ = f.found in
          let e₂ : get_insn executable.text_bytes pc ≡ some i = checked.found in cc) in
      known-Safe pc insn check s m v h at inside f
        (subst (λ j. IsChecked executable.text_bytes executable.version pc j check) same checked)
  dispatch-Safe pc insn s m v h at inside f (second _ i e z r) =
      let same : insn.opc ≡ 0 = (let e₁ = f.found in let e₂ : i ≡ insn = cc in cc) in
      rw (first_op-none executable.version insn same)
        (throw_error-Safe s unsupported_instruction h.reg_length)
