-- ===== src/Interpreter/Safety/Calls.antt =====
-- Calls and returns keep the machine sound.
use aeneas2isabelle.Prelude.{
  ℕ, ◌-◌, ◌≤◌, ◌<◌, ◌≡◌, refl, false, some, List, ◌++◌, ltb, length, get_elem?, get_elem?-lt,
  length-append, length-take, length-drop, take, drop, arith, ◌∙◌, ap,
}
use aeneas2isabelle.Interpreter.Types.{Executable, Host, EbpfVm, Interpreter, index, checked_sub}
use aeneas2isabelle.Interpreter.Frames.{pc_reg}
use aeneas2isabelle.Interpreter.Calls.{builtin_vm, invoke_function, dispatch_syscall}
use aeneas2isabelle.Interpreter.Safety.{
  Safe, goes, >>=-Safe, IsVerified, IsMetered, IsSound, allowance,
}

pub checked_sub-Safe :
    {C : Type 0} (a b : ℕ) → b ≤ a → Safe {C = C} (λ d. d ≡ a - b) (checked_sub a b)
checked_sub-Safe a b h = let fits : ltb a b ≡ false = ground arith in rw fits (goes (a - b) refl)

index-Safe :
    {C : Type 0} (xs : List ℕ) (i : ℕ)
    → i < length xs
    → Safe {C = C} (λ _. Unit {0}) (index (get_elem? xs i))
index-Safe xs i h = let (v, e) = get_elem?-lt xs i h in rw e (goes v tt)

module _ {C : Type 0} (host : Host C) (executable : Executable) where
  -- What a built-in function leaves of the machine it was called on.
  record IsCalled (vm out : EbpfVm C) : Type 0 where
    registers : out.registers ≡ vm.registers
    depth : out.call_depth ≡ vm.call_depth
    remaining : host.get_remaining out.context ≡ out.previous_instruction_meter
    cheaper : out.previous_instruction_meter ≤ vm.due_insn_count

  builtin_vm-Safe :
      (function a b c d e : ℕ) (vm : EbpfVm C)
      → IsMetered host
      → IsVerified executable
      → vm.due_insn_count ≤ vm.previous_instruction_meter
      → host.get_remaining vm.context ≡ vm.previous_instruction_meter
      → Safe (IsCalled vm) (builtin_vm host executable function a b c d e vm)
  unfolding builtin_vm
  builtin_vm-Safe function a b c d e vm m v due remaining = rw v.meter (
      >>=-Safe _ _
        (>>=-Safe
          {Q = λ w. w ≡ record vm {
            context = host.consume vm.context (vm.previous_instruction_meter - vm.due_insn_count);
          }}
          (checked_sub vm.previous_instruction_meter vm.due_insn_count) _ (checked_sub-Safe _ _ due)
          (λ used e₁. goes _ (rw e₁ refl)))
        (λ w e₂. goes _ (record {
          registers = rw e₂ refl;
          depth = rw e₂ refl;
          remaining = refl;
          cheaper = omega (
            arith,
            m.called function w.context a b c d e,
            m.consumed vm.context (vm.previous_instruction_meter - vm.due_insn_count),
            ap (λ (x : EbpfVm C). host.get_remaining x.context) e₂,
          );
        })))

  -- What holds of the machine before the step goes on.
  pub record IsKept (before pc : ℕ) (s : Interpreter C) : Type 0 where
    pub sound : IsSound host executable s
    pub cheaper : allowance host executable s ≤ before
    pub at : get_elem? s.reg pc_reg ≡ some pc

  invoke_function-Safe :
      (function : ℕ) (vm : EbpfVm C)
      → IsMetered host
      → IsVerified executable
      → length vm.registers ≡ 12
      → vm.due_insn_count ≤ vm.previous_instruction_meter
      → host.get_remaining vm.context ≡ vm.previous_instruction_meter
      → Safe (IsCalled vm) (invoke_function host executable function vm)
  unfolding invoke_function
  invoke_function-Safe function vm m v e due remaining =
      >>=-Safe _ _ (index-Safe vm.registers 1 (omega arith)) (λ a _.
        >>=-Safe _ _ (index-Safe vm.registers 2 (omega arith)) (λ b _.
          >>=-Safe _ _ (index-Safe vm.registers 3 (omega arith)) (λ c _.
            >>=-Safe _ _ (index-Safe vm.registers 4 (omega arith)) (λ d _.
              >>=-Safe _ _ (index-Safe vm.registers 5 (omega arith))
                (λ g _. builtin_vm-Safe function a b c d g vm m v due remaining)))))

  length-arguments :
      (reg registers : List ℕ)
      → length reg ≡ 12
      → length registers ≡ 12
      → length (take 6 reg ++ drop 6 registers) ≡ 12
  length-arguments reg registers e h = omega (
    arith,
    length-append (take 6 reg) (drop 6 registers),
    length-take 6 reg (omega arith),
    length-drop 6 registers (omega arith),
  )

  called-IsSound :
      (s : Interpreter C) (remaining : ℕ) (registers : List ℕ) (out : EbpfVm C)
      → IsSound host executable s
      → length registers ≡ 12
      → IsCalled (record s.vm { due_insn_count = remaining; registers = registers }) out
      → IsSound host executable (record s { vm = record out { due_insn_count = 0 } })
  called-IsSound s remaining registers out h e k = record {
    reg_length = h.reg_length;
    registers_length = ap length k.registers ∙ e;
    depth = omega (arith, k.depth, h.depth);
    frames_length = h.frames_length;
    frames = λ i f below. h.frames i f (omega (arith, k.depth));
    due = omega arith;
    remaining = k.remaining;
  }

  pub dispatch_syscall-Safe :
      (function pc : ℕ) (s : Interpreter C)
      → IsMetered host
      → IsVerified executable
      → IsSound host executable s
      → get_elem? s.reg pc_reg ≡ some pc
      → Safe (IsKept (allowance host executable s) pc) (dispatch_syscall host executable function s)
  unfolding dispatch_syscall
  dispatch_syscall-Safe function pc s m v h at =
      let arguments : List ℕ = take 6 s.reg ++ drop 6 s.vm.registers in
      let many : length arguments ≡ 12 =
        length-arguments s.reg s.vm.registers h.reg_length h.registers_length in
      >>=-Safe _ _ (checked_sub-Safe s.vm.previous_instruction_meter s.vm.due_insn_count h.due)
        (λ remaining e.
          >>=-Safe _ _
            (invoke_function-Safe function
              (record s.vm { due_insn_count = remaining; registers = arguments }) m v many
              (omega arith) h.remaining)
            (λ out k. goes _ (record {
              sound = called-IsSound s remaining arguments out h many k;
              cheaper = omega (arith, k.cheaper);
              at = at;
            })))
