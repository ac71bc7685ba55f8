-- ===== src/Interpreter/Step/Supported.antt =====
-- The arms of the interpreter against those of the verifier.
use aeneas2isabelle.Prelude.{
  ℕ, ◌<◌, ◌≡◌, refl, Bool, true, false, ◌==◌, Option, none, some, all_below, all_below_lem, subst,
}
use aeneas2isabelle.Prelude.Int.{pos}
use aeneas2isabelle.Ebpf.Opcodes.{frame_ptr_reg}
use aeneas2isabelle.Ebpf.Insn.{Insn}
use aeneas2isabelle.Program.{SbpfVersion, v0, v1, v2, v3, v4, reserved}
use aeneas2isabelle.Verifier.Arms.{Check, jump, callx, nonzero}
use aeneas2isabelle.Verifier.Verify.{check_of}
use aeneas2isabelle.Interpreter.Arms.{
  Body, divide_imm, jump_always, jump_imm, jump_reg, load_dw, call_register,
}
use aeneas2isabelle.Interpreter.Step.{first_op, all_ops}

-- The check that a body relies on.
abbrev pub relies_on : Body → Check → Bool
relies_on (divide_imm divisor overflows f) nonzero = true
relies_on (divide_imm divisor overflows f) _ = false
relies_on jump_always jump = true
relies_on jump_always _ = false
relies_on (jump_imm condition) jump = true
relies_on (jump_imm condition) _ = false
relies_on (jump_reg condition) jump = true
relies_on (jump_reg condition) _ = false
relies_on load_dw Check.load_dw = true
relies_on load_dw _ = false
relies_on call_register callx = true
relies_on call_register _ = false
relies_on _ _ = true

-- An instruction with a check has a body, which relies on that check at most.
abbrev pub agrees : Option Check → Option Body → Bool
agrees none body = true
agrees (some check) none = false
agrees (some check) (some body) = relies_on body check

-- Instructions that stand for those that write the frame pointer and for the others.
abbrev pub sample : Bool → ℕ → Insn
sample true opcode = record { ptr = 0; opc = opcode; dst = 10; src = 0; off = pos 0; imm = pos 0 }
sample false opcode = record { ptr = 0; opc = opcode; dst = 0; src = 0; off = pos 0; imm = pos 0 }

abbrev agrees_below : SbpfVersion → Bool → Insn → Bool
agrees_below version b insn =
    all_below 256 (λ opcode.
      agrees (check_of version (sample b opcode)) (first_op opcode (all_ops version insn)))

agrees_table : (version : SbpfVersion) (b : Bool) (insn : Insn) → agrees_below version b insn ≡ true
unfolding check_of first_op all_ops all_below
agrees_table v0 true insn = refl
agrees_table v0 false insn = refl
agrees_table v1 true insn = refl
agrees_table v1 false insn = refl
agrees_table v2 true insn = refl
agrees_table v2 false insn = refl
agrees_table v3 true insn = refl
agrees_table v3 false insn = refl
agrees_table v4 true insn = refl
agrees_table v4 false insn = refl
agrees_table reserved true insn = refl
agrees_table reserved false insn = refl

pub check_of-sample :
    (version : SbpfVersion) (insn : Insn) (b : Bool)
    → (insn.dst == frame_ptr_reg) ≡ b
    → check_of version insn ≡ check_of version (sample b insn.opc)
unfolding check_of
check_of-sample version insn true e = rw e
check_of-sample version insn false e = rw e

agrees_at :
    (version : SbpfVersion) (insn : Insn) (b : Bool)
    → (insn.dst == frame_ptr_reg) ≡ b
    → insn.opc < 256
    → agrees (check_of version insn) (first_op insn.opc (all_ops version insn)) ≡ true
agrees_at version insn b e h =
    rw (check_of-sample version insn b e)
      (all_below_lem 256 _ insn.opc h (agrees_table version b insn))

agrees-eq-true :
    (check : Check) (o : Option Body)
    → agrees (some check) o ≡ true
    → (body : Body) × (o ≡ some body) × (relies_on body check ≡ true)
agrees-eq-true check none h = cc
agrees-eq-true check (some body) h = (body, refl, h)

-- In every version, every instruction for which the verifier has an arm has an arm in the
-- interpreter, and the check that the body of that arm relies on, if it relies on one, is the
-- check of the verifier's arm.
pub check_of-first_op :
    (version : SbpfVersion) (insn : Insn) (check : Check)
    → insn.opc < 256
    → check_of version insn ≡ some check
    → (body : Body) × (first_op insn.opc (all_ops version insn) ≡ some body)
      × (relies_on body check ≡ true)
check_of-first_op version insn check h e = agrees-eq-true check _ (
    subst (λ o. agrees o (first_op insn.opc (all_ops version insn)) ≡ true) e
      (agrees_at version insn (insn.dst == frame_ptr_reg) refl h))
