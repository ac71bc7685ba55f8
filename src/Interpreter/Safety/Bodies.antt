-- ===== src/Interpreter/Safety/Bodies.antt =====
-- The bodies of the arms on an instruction that the verifier has checked.
use aeneas2isabelle.Prelude.{
  ℕ, ◌+◌, ◌^◌, ◌≤◌, ◌<◌, ◌≡◌, refl, Bool, true, false, Option, none, some, get_elem?, length-set,
  get_elem?-set_ne, arith, if◌then◌else◌, ◌∙◌,
}
use aeneas2isabelle.Prelude.Int.{pos, wrap, ◌+ℤ◌}
use aeneas2isabelle.Ebpf.Insn.{Insn}
use aeneas2isabelle.Interpreter.Types.{
  ProgramResult, ok, err, divide_by_zero, divide_overflow, invalid_instruction, Executable, Host,
  Interpreter, Outcome, ◌>>=◌,
}
use aeneas2isabelle.Interpreter.Words.{imm_u64, wrapping_add}
use aeneas2isabelle.Interpreter.Frames.{pc_reg, read_reg, throw_error}
use aeneas2isabelle.Interpreter.Step.{
  assign, jump_if, after_access, run_load, run_store, run_load_dw, run_convert,
}
use aeneas2isabelle.Interpreter.Safety.{
  Safe, goes, >>=-Safe, IsVerified, IsMetered, IsSound, IsDone, program_end, allowance,
}
use aeneas2isabelle.Interpreter.Safety.Frames.{
  read_reg-Safe, write_reg-Safe, throw_error-Safe, checked-Safe, write_reg-IsSound,
}
use aeneas2isabelle.Interpreter.Safety.Targets.{SafeBody}
use aeneas2isabelle.Interpreter.Safety.Fetch.{IsFetched, augment_lddw-some}

module _ {C : Type 0} (host : Host C) (executable : Executable) where
  -- The machine at an instruction of the program, with registers that exist.
  pub record IsAt (pc : ℕ) (insn : Insn) (s : Interpreter C) : Type 0 where
    pub sound : IsSound host executable s
    pub at : get_elem? s.reg pc_reg ≡ some pc
    pub inside : pc < program_end host executable
    pub dst : insn.dst < 11
    pub src : insn.src < 11
    pub fetched : IsFetched executable.text_bytes pc insn

  pub any_reg-Safe :
      (s : Interpreter C) (i : ℕ)
      → IsSound host executable s
      → i < 11
      → Safe (λ _. Unit {0}) (read_reg s i)
  any_reg-Safe s i h below = read_reg-Safe s i h.reg_length (omega arith) (λ _ _. tt)

  assign-Safe :
      (before pc v : ℕ) (insn : Insn) (s : Interpreter C)
      → IsSound host executable s
      → allowance host executable s ≤ before
      → pc < program_end host executable
      → insn.dst < 11
      → Safe (IsDone host executable before) (assign s insn (pc + 1) v)
  assign-Safe before pc v insn s h cheaper inside below =
      >>=-Safe _ _
        (write_reg-Safe
          {P = λ t. IsSound host executable t × (allowance host executable t ≤ before)} s insn.dst v
          h.reg_length (omega arith)
          (
            write_reg-IsSound host executable s _ (length-set s.reg insn.dst v ∙ h.reg_length) h,
            cheaper,
          ))
        (λ t k. goes _ (record { sound = k.0; inside = omega arith; cheaper = k.1 }))

  pub set-Safe :
      (pc v : ℕ) (insn : Insn) (s : Interpreter C)
      → IsAt pc insn s
      → SafeBody host executable s (assign s insn (pc + 1) v)
  set-Safe pc v insn s h = assign-Safe _ pc v insn s h.sound (omega arith) h.inside h.dst

  pub jump_if-Safe :
      (pc : ℕ) (condition : Bool) (insn : Insn) (s : Interpreter C)
      → IsAt pc insn s
      → imm_u64 (pos (pc + 1) +ℤ insn.off) < program_end host executable
      → SafeBody host executable s (jump_if s insn (pc + 1) condition)
  jump_if-Safe pc true insn s h target =
      goes _ (record { sound = h.sound; inside = omega arith; cheaper = omega arith })
  jump_if-Safe pc false insn s h target =
      goes _ (record { sound = h.sound; inside = omega (arith, h.inside); cheaper = omega arith })

  context-IsSound :
      (s : Interpreter C) (context : C)
      → IsSound host executable s
      → host.get_remaining context ≡ host.get_remaining s.vm.context
      → IsSound host executable (record s { vm = record s.vm { context = context } })
  context-IsSound s context h e = record {
    reg_length = h.reg_length;
    registers_length = h.registers_length;
    depth = h.depth;
    frames_length = h.frames_length;
    frames = h.frames;
    due = h.due;
    remaining = e ∙ h.remaining;
  }

  after_access-Safe :
      (access : ProgramResult × C) (s : Interpreter C)
      → IsSound host executable s
      → host.get_remaining access.1 ≡ host.get_remaining s.vm.context
      → Safe
          (λ loaded.
            IsSound host executable loaded.1
            × (allowance host executable loaded.1 ≤ allowance host executable s))
          (after_access access s)
  unfolding after_access
  after_access-Safe (ok value, context) s h e = goes _ (context-IsSound s context h e, omega arith)
  after_access-Safe (err error, context) s h e =
      throw_error-Safe (record s { vm = record s.vm { context = context } }) error h.reg_length

  pub run_load-Safe :
      (size pc : ℕ) (insn : Insn) (s : Interpreter C)
      → IsMetered host
      → IsAt pc insn s
      → SafeBody host executable s (run_load host executable size insn (pc + 1) s)
  unfolding run_load
  run_load-Safe size pc insn s m h = >>=-Safe _ _ (any_reg-Safe s insn.src h.sound h.src) (λ base _.
      >>=-Safe _ _
        (after_access-Safe
          (host.load s.vm.context size (wrapping_add 64 base (wrap (2 ^ 64) insn.off))) s h.sound
          (m.loaded s.vm.context size _))
        (λ loaded k. assign-Safe _ pc loaded.0 insn loaded.1 k.0 k.1 h.inside h.dst))

  pub run_store-Safe :
      (size value pc : ℕ) (insn : Insn) (s : Interpreter C)
      → IsMetered host
      → IsAt pc insn s
      → SafeBody host executable s (run_store host executable size value insn (pc + 1) s)
  unfolding run_store
  run_store-Safe size value pc insn s m h =
      >>=-Safe _ _ (any_reg-Safe s insn.dst h.sound h.dst) (λ base _.
        >>=-Safe _ _
          (after_access-Safe
            (host.store s.vm.context size value (wrapping_add 64 base (wrap (2 ^ 64) insn.off))) s
            h.sound (m.stored s.vm.context size value _))
          (λ stored k.
            goes _ (record { sound = k.0; inside = omega (arith, h.inside); cheaper = k.1 })))

  pub run_load_dw-Safe :
      (pc : ℕ) (insn : Insn) (s : Interpreter C)
      → IsVerified executable
      → IsAt pc insn s
      → pc + 1 < program_end host executable
      → SafeBody host executable s (run_load_dw host executable insn (pc + 1) s)
  unfolding run_load_dw
  run_load_dw-Safe pc insn s v h more =
      let (long, e) = augment_lddw-some executable.text_bytes insn (omega (arith, h.fetched.ptr)) in
      rw e (
        >>=-Safe _ _
          (write_reg-Safe
            {P = λ t.
              IsSound host executable t
              × (allowance host executable t ≤ allowance host executable s)
              × (get_elem? t.reg pc_reg ≡ some pc)}
            s insn.dst (imm_u64 long.imm) h.sound.reg_length (omega (arith, h.dst))
            (
              write_reg-IsSound host executable s _
                  (length-set s.reg insn.dst _ ∙ h.sound.reg_length) h.sound,
              omega arith,
              get_elem?-set_ne s.reg insn.dst pc_reg _ (λ same. absurd (omega (arith, h.dst)))
                  ∙ h.at,
            ))
          (λ written k.
            >>=-Safe _ _
              (read_reg-Safe {P = λ p. p ≡ pc} written pc_reg k.0.reg_length (omega arith)
                (λ p e₀. let e₁ = k.2 in cc))
              (λ p e₀.
                >>=-Safe _ _ (checked-Safe {P = λ _. Unit {0}} (p + 1) (omega (arith, v.small)) tt)
                  (λ moved _.
                    >>=-Safe _ _
                      (write_reg-Safe
                        {P = λ t.
                          IsSound host executable t
                          × (allowance host executable t ≤ allowance host executable s)}
                        written pc_reg moved k.0.reg_length (omega arith)
                        (
                          write_reg-IsSound host executable written _
                              (length-set written.reg pc_reg moved ∙ k.0.reg_length) k.0,
                          k.1,
                        ))
                      (λ stepped l.
                        >>=-Safe _ _
                          (checked-Safe {P = λ n. n ≡ pc + 1 + 1} (pc + 1 + 1)
                            (omega (arith, v.small)) refl)
                          (λ next e₂.
                            goes _
                              (record { sound = l.0; inside = omega arith; cheaper = l.1 })))))))

  pub divide_imm-Safe :
      (overflow zero_divisor : Bool) (pc v : ℕ) (insn : Insn) (s : Interpreter C)
      → IsAt pc insn s
      → zero_divisor ≡ false
      → SafeBody host executable s (
          if overflow
          then throw_error s divide_overflow
          else if zero_divisor
          then Outcome.panic
          else assign s insn (pc + 1) v)
  divide_imm-Safe true zero_divisor pc v insn s h e =
      throw_error-Safe s divide_overflow h.sound.reg_length
  divide_imm-Safe false zero_divisor pc v insn s h e = rw e (set-Safe pc v insn s h)

  pub divide_reg-Safe :
      (zero_divisor : Bool) (overflows : ℕ → Bool) (f : ℕ → ℕ) (pc : ℕ) (insn : Insn)
      (s : Interpreter C)
      → IsAt pc insn s
      → SafeBody host executable s (
          if zero_divisor
          then throw_error s divide_by_zero
          else (read_reg s insn.dst >>= λ d.
              if overflows d then throw_error s divide_overflow else assign s insn (pc + 1) (f d)))
  divide_reg-Safe true overflows f pc insn s h =
      throw_error-Safe s divide_by_zero h.sound.reg_length
  divide_reg-Safe false overflows f pc insn s h =
      >>=-Safe _ _ (any_reg-Safe s insn.dst h.sound h.dst)
        (λ d _. divide_imm-Safe (overflows d) false pc (f d) insn s h refl)

  pub run_convert-Safe :
      (width : Option ℕ) (f : ℕ → ℕ → ℕ) (pc : ℕ) (insn : Insn) (s : Interpreter C)
      → IsAt pc insn s
      → SafeBody host executable s (run_convert width f insn (pc + 1) s)
  unfolding run_convert
  run_convert-Safe none f pc insn s h = throw_error-Safe s invalid_instruction h.sound.reg_length
  run_convert-Safe (some width) f pc insn s h =
      >>=-Safe _ _ (any_reg-Safe s insn.dst h.sound h.dst) (λ d _. set-Safe pc (f width d) insn s h)
