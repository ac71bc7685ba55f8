-- ===== src/Interpreter/Safety/Targets.antt =====
-- Calls and returns go on inside the program.
use aeneas2isabelle.Prelude.{
  ℕ, ◌+◌, ◌/◌, ◌<◌, ◌≡◌, Bool, true, false, Option, none, some, List, length, get_elem?,
  get_elem?-set_ne, length-set, set, arith, Bool-cases, inl, inr, ◌==◌, ◌∙◌,
}
use aeneas2isabelle.Prelude.Int.{pos, ◌+ℤ◌}
use aeneas2isabelle.Ebpf.Opcodes.{insn_size}
use aeneas2isabelle.Ebpf.Insn.{Insn, is_pc_in_program, usize_max}
use aeneas2isabelle.Program.{static_syscalls}
use aeneas2isabelle.Interpreter.Types.{
  ProgramResult, ok, err, call_outside_text_segment, unsupported_instruction, Executable, Host,
  Interpreter, Outcome,
}
use aeneas2isabelle.Interpreter.Words.{imm_u64, wrapping_sub}
use aeneas2isabelle.Interpreter.Frames.{pc_reg, push_frame}
use aeneas2isabelle.Interpreter.Calls.{
  after_syscall, check_pc, call_reg, callx_index, external_function, call_external, call_internal,
  call_relative, call_registered, unless_resolved, call_imm,
}
use aeneas2isabelle.Interpreter.Safety.{
  Safe, goes, ends, >>=-Safe, Safe-map, IsVerified, IsMetered, IsSound, IsDone, program_end,
  allowance,
}
use aeneas2isabelle.Interpreter.Safety.Frames.{
  read_reg-Safe, write_reg-Safe, throw_error-Safe, write_reg-IsSound, IsDeeper, push_frame-Safe,
}
use aeneas2isabelle.Interpreter.Safety.Calls.{IsKept, dispatch_syscall-Safe}

in_program :
    (text : List ℕ) (pc : ℕ)
    → length text < usize_max
    → is_pc_in_program text pc ≡ true
    → pc < length text / insn_size
unfolding is_pc_in_program
in_program text pc small h = ground arith

module _ {C : Type 0} (host : Host C) (executable : Executable) where
  -- The body of an arm is safe if it ends in a machine as `IsDone` says.
  abbrev pub SafeBody : Interpreter C → Outcome C (Interpreter C × ℕ) → Type 0
  SafeBody s m = Safe (IsDone host executable (allowance host executable s)) m

  check_pc-Safe :
      (s : Interpreter C) (before target_pc : ℕ)
      → IsVerified executable
      → IsDeeper host executable before s
      → Safe (IsDone host executable before) (check_pc host executable s target_pc)
  unfolding check_pc
  check_pc-Safe s before target_pc v h =
      elim (Bool-cases (is_pc_in_program executable.text_bytes target_pc)) [
        | inl e ↦ rw e (
            goes _ (record {
              sound = h.sound;
              inside = omega (arith, in_program executable.text_bytes target_pc v.small e);
              cheaper = h.cheaper;
            }))
        | inr e ↦ rw e (throw_error-Safe s call_outside_text_segment h.sound.reg_length)
      ]

  pub call_reg-Safe :
      (insn : Insn) (pc : ℕ) (s : Interpreter C)
      → IsVerified executable
      → IsSound host executable s
      → get_elem? s.reg pc_reg ≡ some pc
      → pc < program_end host executable
      → callx_index host executable insn < 12
      → SafeBody s (call_reg host executable insn s)
  unfolding call_reg
  call_reg-Safe insn pc s v h at inside fits =
      >>=-Safe _ _
        (read_reg-Safe {P = λ _. Unit} s (callx_index host executable insn) h.reg_length fits
          (λ _ _. tt))
        (λ target _. >>=-Safe _ _ (push_frame-Safe host executable s pc v h at inside) (λ pushed k.
          check_pc-Safe pushed _ (wrapping_sub 64 target executable.program_vm_addr / insn_size) v
            k))

  written-IsKept :
      (before pc i value : ℕ) (s : Interpreter C)
      → i < 11
      → IsKept host executable before pc s
      → IsKept host executable before pc (record s { reg = set s.reg i value })
  written-IsKept before pc i value s below h = record {
    sound =
        write_reg-IsSound host executable s _ (length-set s.reg i value ∙ h.sound.reg_length)
          h.sound;
    cheaper = h.cheaper;
    at = get_elem?-set_ne s.reg i pc_reg value (λ e. absurd (omega arith)) ∙ h.at;
  }

  after_syscall-Safe :
      (before pc : ℕ) (result : ProgramResult) (s : Interpreter C)
      → IsKept host executable before pc s
      → Safe (IsKept host executable before pc) (after_syscall host executable result s)
  after_syscall-Safe before pc (ok value) s h =
      write_reg-Safe s 0 value h.sound.reg_length (omega arith)
        (written-IsKept before pc 0 value s (omega arith) h)
  after_syscall-Safe before pc (err error) s h = ends s

  call_external-Safe :
      (external : Option (List ℕ × ℕ)) (pc : ℕ) (s : Interpreter C)
      → IsMetered host
      → IsVerified executable
      → IsSound host executable s
      → get_elem? s.reg pc_reg ≡ some pc
      → Safe
          (λ called. IsKept host executable (allowance host executable s) pc called.0)
          (call_external host executable external s)
  unfolding call_external
  call_external-Safe none pc s m v h at =
      goes _ (record { sound = h; cheaper = omega arith; at = at })
  call_external-Safe (some (name, function)) pc s m v h at =
      >>=-Safe _ _ (dispatch_syscall-Safe host executable function pc s m v h at) (λ called k.
        >>=-Safe _ _ (after_syscall-Safe _ pc called.vm.program_result called k)
          (λ written l. goes _ l))

  unless_resolved-Safe :
      (before pc : ℕ) (s : Interpreter C) (resolved : Bool)
      → IsKept host executable before pc s
      → pc < program_end host executable
      → Safe (IsDone host executable before) (unless_resolved host executable (pc + 1) s resolved)
  unless_resolved-Safe before pc s true k inside =
      goes _ (record { sound = k.sound; inside = omega arith; cheaper = k.cheaper })
  unless_resolved-Safe before pc s false k inside =
      throw_error-Safe s unsupported_instruction k.sound.reg_length

  pushed-Safe :
      (before pc : ℕ) (s : Interpreter C)
      → IsVerified executable
      → IsKept host executable before pc s
      → pc < program_end host executable
      → Safe (IsDeeper host executable before) (push_frame executable s)
  pushed-Safe before pc s v k inside =
      Safe-map (push_frame executable s)
        (push_frame-Safe host executable s pc v k.sound k.at inside)
        (λ t l. record { sound = l.sound; cheaper = omega (arith, l.cheaper, k.cheaper) })

  call_relative-Safe :
      (insn : Insn) (before pc : ℕ) (s : Interpreter C) (resolved : Bool)
      → IsVerified executable
      → IsKept host executable before pc s
      → pc < program_end host executable
      → Safe
          (IsDone host executable before)
          (call_relative host executable insn (pc + 1) s resolved)
  unfolding call_relative
  call_relative-Safe insn before pc s resolved v k inside =
      let target_pc : ℕ = imm_u64 (pos (pc + 1) +ℤ insn.imm) in
      elim (Bool-cases (is_pc_in_program executable.text_bytes target_pc)) [
        | inl e ↦ elim (Bool-cases (insn.src == 1)) [
          | inl internal ↦
              rw (e, internal)
                (>>=-Safe _ _ (pushed-Safe before pc s v k inside) (λ pushed l. goes _ (record {
                  sound = l.sound;
                  inside = omega (arith, in_program executable.text_bytes target_pc v.small e);
                  cheaper = l.cheaper;
                })))
          | inr other ↦ rw (e, other) (unless_resolved-Safe before pc s resolved k inside)
        ]
        | inr e ↦ rw e (unless_resolved-Safe before pc s resolved k inside)
      ]

  call_registered-Safe :
      (found : Option (List ℕ × ℕ)) (before pc : ℕ) (s : Interpreter C) (resolved : Bool)
      → IsVerified executable
      → IsKept host executable before pc s
      → pc < program_end host executable
      → Safe
          (IsDone host executable before)
          (call_registered host executable found (pc + 1) s resolved)
  unfolding call_registered
  call_registered-Safe none before pc s resolved v k inside =
      unless_resolved-Safe before pc s resolved k inside
  call_registered-Safe (some (name, target_pc)) before pc s resolved v k inside =
      >>=-Safe _ _ (pushed-Safe before pc s v k inside)
        (λ pushed l. check_pc-Safe pushed before target_pc v l)

  pub call_imm-Safe :
      (insn : Insn) (pc : ℕ) (s : Interpreter C)
      → IsMetered host
      → IsVerified executable
      → IsSound host executable s
      → get_elem? s.reg pc_reg ≡ some pc
      → pc < program_end host executable
      → SafeBody s (call_imm host executable insn (pc + 1) s)
  unfolding call_imm call_internal
  call_imm-Safe insn pc s m v h at inside =
      >>=-Safe _ _ (call_external-Safe (external_function host executable insn) pc s m v h at)
        (λ called k. elim (Bool-cases (static_syscalls executable.version)) [
          | inl e ↦ rw e (call_relative-Safe insn _ pc called.0 called.1 v k inside)
          | inr e ↦ rw e (call_registered-Safe _ _ pc called.0 called.1 v k inside)
        ])
