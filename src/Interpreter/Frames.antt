-- ===== src/Interpreter/Frames.antt =====
-- casestudy/sbpf/src/interpreter.rs: the registers, `throw_error!` and `push_frame`.
use aeneas2isabelle.Prelude.{
  ℕ, ◌+◌, ◌*◌, ◌&&◌, List, ◌++◌, ltb, ◌==◌, if◌then◌else◌, length, get_elem?, set, take, drop,
}
use aeneas2isabelle.Ebpf.Opcodes.{frame_ptr_reg}
use aeneas2isabelle.Program.{manual_stack_frame_bump, stack_frame_gaps}
use aeneas2isabelle.Interpreter.Types.{
  err, EbpfError, call_depth_exceeded, Executable, CallFrame, Interpreter, Outcome, running,
  stopped, panic, ◌>>=◌, index, checked,
}
use aeneas2isabelle.Interpreter.Words.{wrapping_add}

abbrev pub first_scratch_reg : ℕ
first_scratch_reg = 6

abbrev pub scratch_regs : ℕ
scratch_regs = 4

-- The register that holds the program counter.
abbrev pub pc_reg : ℕ
pc_reg = 11

-- The scratch registers, and their copy back.
abbrev pub scratch : List ℕ → List ℕ
scratch reg = take scratch_regs (drop first_scratch_reg reg)

abbrev pub restore_scratch : List ℕ → List ℕ → List ℕ
restore_scratch saved reg =
    take first_scratch_reg reg ++ (saved ++ drop (first_scratch_reg + scratch_regs) reg)

abbrev pub num_frames : Executable → ℕ
num_frames executable =
    if stack_frame_gaps executable.version && executable.config.enable_stack_frame_gaps
    then 2
    else 1

module _ {C : Type 0} where
  abbrev pub read_reg : Interpreter C → ℕ → Outcome C ℕ
  read_reg s i = index (get_elem? s.reg i)

  abbrev pub write_reg : Interpreter C → ℕ → ℕ → Outcome C (Interpreter C)
  write_reg s i v =
      if ltb i (length s.reg) then running (record s { reg = set s.reg i v }) else panic

  unfoldable pub throw_error : {A : Type 0} → Interpreter C → EbpfError → Outcome C A
  throw_error s error = do
    pc ← read_reg s pc_reg
    stopped (record s {
      vm = record s.vm { registers = set s.vm.registers pc_reg pc; program_result = err error };
    })

  -- With fixed frames the frame of the callee starts at the next fixed offset.
  unfoldable pub bump_frame : Executable → Interpreter C → Outcome C (Interpreter C)
  bump_frame executable s = if manual_stack_frame_bump executable.version then running s else (do
    stack_frame_size ← checked (executable.config.stack_frame_size * num_frames executable)
    frame_pointer ← read_reg s frame_ptr_reg
    write_reg s frame_ptr_reg (wrapping_add 64 frame_pointer stack_frame_size))

  abbrev pub pushed_frame : Interpreter C → ℕ → ℕ → CallFrame
  pushed_frame s frame_pointer target_pc = record {
    caller_saved_registers = scratch s.reg;
    frame_pointer = frame_pointer;
    target_pc = target_pc;
  }

  -- The state with the registers written to the frame of the current depth, and one level deeper.
  abbrev pub with_frame : Interpreter C → ℕ → ℕ → ℕ → Interpreter C
  with_frame s frame_pointer target_pc call_depth = record s {
    vm = record s.vm { call_depth = call_depth };
    call_frames = set s.call_frames s.vm.call_depth (pushed_frame s frame_pointer target_pc);
  }

  unfoldable pub push_frame : Executable → Interpreter C → Outcome C (Interpreter C)
  unfolding throw_error bump_frame
  push_frame executable s = do
    frame ← index (get_elem? s.call_frames s.vm.call_depth)
    frame_pointer ← read_reg s frame_ptr_reg
    pc ← read_reg s pc_reg
    target_pc ← checked (pc + 1)
    call_depth ← checked (s.vm.call_depth + 1)
    if call_depth == executable.config.max_call_depth
        then throw_error (with_frame s frame_pointer target_pc call_depth) call_depth_exceeded
        else bump_frame executable (with_frame s frame_pointer target_pc call_depth)
