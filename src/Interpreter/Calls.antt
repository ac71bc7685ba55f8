-- ===== src/Interpreter/Calls.antt =====
-- casestudy/sbpf/src/interpreter.rs, vm.rs and program.rs: calls of functions and of built-in
-- functions, and returns.
pub mod Restored
pub mod RoundTrip
pub mod Depth
use aeneas2isabelle.Prelude.{
  ℕ, ◌+◌, ◌/◌, Bool, true, false, not, ◌&&◌, ◌||◌, Option, none, some, List, ◌++◌, ltb, ◌==◌,
  if◌then◌else◌, get_elem?, set, take, drop,
}
use aeneas2isabelle.Prelude.Int.{ℤ, pos, ◌+ℤ◌}
use aeneas2isabelle.Ebpf.Opcodes.{insn_size, frame_ptr_reg}
use aeneas2isabelle.Ebpf.Insn.{Insn, is_pc_in_program}
use aeneas2isabelle.Program.{callx_uses_src_reg, callx_uses_dst_reg, static_syscalls}
use aeneas2isabelle.Program.Registry.{lookup_by_key}
use aeneas2isabelle.Interpreter.Types.{
  ProgramResult, ok, err, call_outside_text_segment, syscall_error, exceeded_max_instructions,
  unsupported_instruction, RustResult, returned, failed, Config, Executable, Host, CallFrame,
  EbpfVm, Interpreter, Outcome, running, stopped, ◌>>=◌, index, checked_sub,
}
use aeneas2isabelle.Interpreter.Words.{imm_u32, imm_u64, wrapping_sub}
use aeneas2isabelle.Interpreter.Frames.{
  pc_reg, restore_scratch, read_reg, write_reg, throw_error, push_frame,
}

-- The result of a built-in function, with its error wrapped.
abbrev pub converted : RustResult → ProgramResult
converted (returned value) = ok value
converted (failed error) = err (syscall_error error)

module _ {C : Type 0} (host : Host C) (executable : Executable) where
  abbrev pub consume_used : EbpfVm C → Outcome C (EbpfVm C)
  consume_used vm =
      if executable.config.enable_instruction_meter
      then (do
        used_cus ← checked_sub vm.previous_instruction_meter vm.due_insn_count
        running (record vm { context = host.consume vm.context used_cus }))
      else running vm

  -- What the wrapper of a built-in function leaves of the machine.
  abbrev pub after_rust : EbpfVm C → RustResult × C → EbpfVm C
  after_rust vm (result, context) = record vm {
    context = context;
    program_result = converted result;
    previous_instruction_meter =
        (if executable.config.enable_instruction_meter
          then host.get_remaining context
          else vm.previous_instruction_meter);
  }

  -- `BuiltinFunctionDefinition::vm`.
  unfoldable pub builtin_vm : ℕ → ℕ → ℕ → ℕ → ℕ → ℕ → EbpfVm C → Outcome C (EbpfVm C)
  builtin_vm function a b c d e vm = do
    consumed ← consume_used vm
    running (after_rust consumed (host.rust function consumed.context a b c d e))

  unfoldable pub invoke_function : ℕ → EbpfVm C → Outcome C (EbpfVm C)
  unfolding builtin_vm
  invoke_function function vm = do
    a ← index (get_elem? vm.registers 1)
    b ← index (get_elem? vm.registers 2)
    c ← index (get_elem? vm.registers 3)
    d ← index (get_elem? vm.registers 4)
    e ← index (get_elem? vm.registers 5)
    builtin_vm function a b c d e vm

  unfoldable pub dispatch_syscall : ℕ → Interpreter C → Outcome C (Interpreter C)
  unfolding invoke_function
  dispatch_syscall function s = do
    remaining ← checked_sub s.vm.previous_instruction_meter s.vm.due_insn_count
    vm ← invoke_function function (record s.vm {
      due_insn_count = remaining;
      registers = take 6 s.reg ++ drop 6 s.vm.registers;
    })
    running (record s { vm = record vm { due_insn_count = 0 } })

  -- The value of a built-in function goes to the first register; its error ends the program.
  abbrev pub after_syscall : ProgramResult → Interpreter C → Outcome C (Interpreter C)
  after_syscall (ok value) s = write_reg s 0 value
  after_syscall (err error) s = stopped s

  -- `check_pc!`, with the program counter that the step goes on at.
  unfoldable pub check_pc : Interpreter C → ℕ → Outcome C (Interpreter C × ℕ)
  unfolding throw_error
  check_pc s target_pc =
      if is_pc_in_program executable.text_bytes target_pc
      then running (s, target_pc)
      else throw_error s call_outside_text_segment

  -- The register with the address that is called.
  abbrev pub callx_index : Insn → ℕ
  callx_index insn =
      if callx_uses_src_reg executable.version
      then insn.src
      else if callx_uses_dst_reg executable.version
      then insn.dst
      else imm_u64 insn.imm

  unfoldable pub call_reg : Insn → Interpreter C → Outcome C (Interpreter C × ℕ)
  unfolding push_frame check_pc
  call_reg insn s = do
    target ← read_reg s (callx_index insn)
    pushed ← push_frame executable s
    check_pc pushed (wrapping_sub 64 target executable.program_vm_addr / insn_size)

  -- The first half of a call by immediate: the built-in function, and whether there is one.
  abbrev pub external_function : Insn → Option (List ℕ × ℕ)
  external_function insn =
      if not (static_syscalls executable.version) || (insn.src == 0)
      then lookup_by_key executable.loader_registry (imm_u32 insn.imm)
      else none

  unfoldable pub call_external :
      Option (List ℕ × ℕ) → Interpreter C → Outcome C (Interpreter C × Bool)
  unfolding dispatch_syscall
  call_external none s = running (s, false)
  call_external (some (name, function)) s = do
    called ← dispatch_syscall function s
    written ← after_syscall called.vm.program_result called
    running (written, true)

  abbrev pub unless_resolved : ℕ → Interpreter C → Bool → Outcome C (Interpreter C × ℕ)
  unless_resolved next_pc s true = running (s, next_pc)
  unless_resolved next_pc s false = throw_error s unsupported_instruction

  -- The second half, a function of the program itself: in the versions with static calls at a
  -- distance, and else one that is registered.
  unfoldable pub call_relative : Insn → ℕ → Interpreter C → Bool → Outcome C (Interpreter C × ℕ)
  unfolding push_frame throw_error
  call_relative insn next_pc s resolved =
      let target_pc = imm_u64 (pos next_pc +ℤ insn.imm) in
      if is_pc_in_program executable.text_bytes target_pc && (insn.src == 1)
      then (push_frame executable s >>= λ pushed. running (pushed, target_pc))
      else unless_resolved next_pc s resolved

  unfoldable pub call_registered :
      Option (List ℕ × ℕ) → ℕ → Interpreter C → Bool → Outcome C (Interpreter C × ℕ)
  unfolding push_frame check_pc throw_error
  call_registered none next_pc s resolved = unless_resolved next_pc s resolved
  call_registered (some (name, target_pc)) next_pc s resolved =
      push_frame executable s >>= λ pushed. check_pc pushed target_pc

  unfoldable pub call_internal : Insn → ℕ → Interpreter C → Bool → Outcome C (Interpreter C × ℕ)
  unfolding call_relative call_registered
  call_internal insn next_pc s resolved =
      if static_syscalls executable.version
      then call_relative insn next_pc s resolved
      else call_registered (lookup_by_key executable.function_registry (imm_u32 insn.imm)) next_pc s
          resolved

  unfoldable pub call_imm : Insn → ℕ → Interpreter C → Outcome C (Interpreter C × ℕ)
  unfolding call_external call_internal
  call_imm insn next_pc s = call_external (external_function insn) s >>= λ called.
      call_internal insn next_pc called.0 called.1

  unfoldable pub exit : Interpreter C → Outcome C (Interpreter C × ℕ)
  unfolding throw_error
  exit s =
      if s.vm.call_depth == 0
      then if executable.config.enable_instruction_meter
          && ltb s.vm.previous_instruction_meter s.vm.due_insn_count
        then throw_error s exceeded_max_instructions
        else (do
          value ← read_reg s 0
          stopped (record s { vm = record s.vm { program_result = ok value } }))
      else (do
        call_depth ← checked_sub s.vm.call_depth 1
        frame ← index (get_elem? s.call_frames call_depth)
        restored ← write_reg s frame_ptr_reg frame.frame_pointer
        running (
          record restored {
            vm = record s.vm { call_depth = call_depth };
            reg = restore_scratch frame.caller_saved_registers restored.reg;
          },
          frame.target_pc,
        ))
