-- ===== src/Interpreter/Run.antt =====
-- casestudy/sbpf/src/vm.rs: `EbpfVm::new`, the loop of `run_interpreter` and `execute_program` in
-- interpreted mode.
use aeneas2isabelle.Prelude.{
  ℕ, zero, suc, ◌+◌, ◌-◌, List, [], ltb, if◌then◌else◌, length, set, replicate,
}
use aeneas2isabelle.Ebpf.Opcodes.{frame_ptr_reg}
use aeneas2isabelle.Program.{SbpfVersion, manual_stack_frame_bump}
use aeneas2isabelle.Interpreter.Types.{
  ProgramResult, ok, Config, Executable, Host, CallFrame, EbpfVm, Interpreter, Outcome, running,
  stopped, panic, ◌>>=◌, u64_end,
}
use aeneas2isabelle.Interpreter.Frames.{pc_reg}
use aeneas2isabelle.Interpreter.Step.{step}
use Prim.Native.Nat.{min}

-- The start of the stack in the program's memory.
abbrev mm_stack_start : ℕ
mm_stack_start = 0x2_0000_0000

abbrev initial_frame_pointer : SbpfVersion → Config → ℕ → ℕ
initial_frame_pointer version config stack_len = min (u64_end - 1) (
    mm_stack_start
    + (if manual_stack_frame_bump version then stack_len else config.stack_frame_size))

-- `EbpfVm::new`.
unfoldable pub new_vm : {C : Type 0} → SbpfVersion → Config → C → ℕ → EbpfVm C
new_vm version config context stack_len = record {
  call_depth = 0;
  context = context;
  previous_instruction_meter = 0;
  due_insn_count = 0;
  registers = set (replicate 12 0) frame_ptr_reg (initial_frame_pointer version config stack_len);
  program_result = ok 0;
  register_trace = [];
}

-- How the execution of a program ends: with the number of instructions, the result and what is
-- left of the machine; with a panic; or not within the fuel.
pub data Execution (C : Type 0) : Type 0 where
  executed : ℕ → ProgramResult → EbpfVm C → Execution C
  panicked unfinished : Execution C

module _ {C : Type 0} (host : Host C) (executable : Executable) where
  -- The loop `while interpreter.step() {}`, for as many rounds as the fuel allows; it is still
  -- running when the fuel is used up.
  unfoldable pub run_interpreter : ℕ → Interpreter C → Outcome C (Interpreter C)
  unfolding step
  run_interpreter zero s = running s
  run_interpreter (suc fuel) s = step host executable s >>= λ next. run_interpreter fuel next

  -- The machine at the start of an execution.
  abbrev pub prepared : EbpfVm C → EbpfVm C
  prepared vm = record vm {
    registers = set vm.registers pc_reg executable.entrypoint;
    previous_instruction_meter = host.get_remaining vm.context;
    due_insn_count = 0;
    program_result = ok 0;
  }

  -- The report of an execution that began with `initial_insn_count`.
  unfoldable pub report : ℕ → Outcome C (Interpreter C) → Execution C
  report initial_insn_count (running s) = unfinished
  report initial_insn_count panic = panicked
  report initial_insn_count (stopped s) =
      if executable.config.enable_instruction_meter
      then (let context = host.consume s.vm.context s.vm.due_insn_count in
          executed (initial_insn_count - host.get_remaining context) s.vm.program_result
            (record s.vm { context = context; program_result = ok 0 }))
      else executed 0 s.vm.program_result (record s.vm { program_result = ok 0 })

  -- `Interpreter::new` asserts that the frames are enough.
  unfoldable pub execute_program : ℕ → EbpfVm C → List CallFrame → Execution C
  unfolding run_interpreter report
  execute_program fuel vm call_frames =
      let start = prepared vm in
      if ltb (length call_frames) executable.config.max_call_depth
      then panicked
      else report start.previous_instruction_meter (
          run_interpreter fuel
            (record { vm = start; call_frames = call_frames; reg = start.registers }))
