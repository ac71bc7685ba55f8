-- ===== src/Interpreter/Safety/Run.antt =====
-- Executions of programs that the verifier accepts.
use aeneas2isabelle.Prelude.{
  ℕ, zero, suc, ◌-◌, ◌/◌, ◌≤◌, ◌<◌, ◌≡◌, refl, true, false, List, length, get_elem?-set_self,
  length-set, set, arith, ltb, ◌∙◌,
}
use aeneas2isabelle.Ebpf.Opcodes.{insn_size}
use aeneas2isabelle.Interpreter.Types.{
  ProgramResult, ok, Executable, Host, CallFrame, EbpfVm, Interpreter, Outcome, stopped, ◌>>=◌,
}
use aeneas2isabelle.Interpreter.Frames.{pc_reg}
use aeneas2isabelle.Interpreter.Step.{step}
use aeneas2isabelle.Interpreter.Run.{
  new_vm, executed, run_interpreter, prepared, report, execute_program,
}
use aeneas2isabelle.Interpreter.Safety.{Safe, goes, ends, IsVerified, IsMetered, allowance}
use aeneas2isabelle.Interpreter.Safety.Steps.{IsReady, step-Safe}

Safe-stopped :
    {C A B : Type 0} {P : A → Type 0} (m : Outcome C A) (f : A → Outcome C B)
    → Safe P m
    → ((a : A) → P a → (t : Interpreter C) × (f a ≡ stopped t))
    → (t : Interpreter C) × (m >>= f ≡ stopped t)
Safe-stopped _ f (goes a p) k = k a p
Safe-stopped _ f (ends s) k = (s, refl)

module _ {C : Type 0} (host : Host C) (executable : Executable) where
  -- On an executable that the verifier accepts, and a host whose instruction meter is never
  -- added to, the loop of the interpreter comes to an end from a machine whose registers, frames
  -- and program counter are in range, within one step more than the instructions that the meter
  -- still allows, and without a panic.
  pub run_interpreter-stops :
      (fuel : ℕ) (s : Interpreter C)
      → IsMetered host
      → IsVerified executable
      → IsReady host executable s
      → allowance host executable s < fuel
      → (t : Interpreter C) × (run_interpreter host executable fuel s ≡ stopped t)
  unfolding run_interpreter
  run_interpreter-stops zero s m v h enough = absurd (omega arith)
  run_interpreter-stops (suc fuel) s m v h enough =
      Safe-stopped (step host executable s) _ (step-Safe host executable s m v h)
        (λ t k. run_interpreter-stops fuel t m v k.0 (omega (arith, k.1)))

  pub initial-IsReady :
      (vm : EbpfVm C) (call_frames : List CallFrame)
      → length vm.registers ≡ 12
      → vm.call_depth < executable.config.max_call_depth
      → vm.call_depth ≡ 0
      → executable.config.max_call_depth ≤ length call_frames
      → executable.entrypoint ≤ length executable.text_bytes / insn_size
      → IsReady host executable (record {
        vm = prepared host executable vm;
        call_frames = call_frames;
        reg = (prepared host executable vm).registers;
      })
  initial-IsReady vm call_frames e deep root frames entry =
      let many : length (set vm.registers pc_reg executable.entrypoint) ≡ 12 =
        length-set vm.registers pc_reg executable.entrypoint ∙ e in
      record {
        sound = record {
          reg_length = many;
          registers_length = many;
          depth = deep;
          frames_length = frames;
          frames = λ i f below. absurd (omega arith);
          due = omega arith;
          remaining = refl;
        };
        pc = executable.entrypoint;
        at = get_elem?-set_self vm.registers pc_reg executable.entrypoint (omega arith);
        inside = entry;
      }

  report-executed :
      (initial : ℕ) (t : Interpreter C)
      → executable.config.enable_instruction_meter ≡ true
      → (count : ℕ) × (result : ProgramResult) × (vm : EbpfVm C) × (report host executable initial
            (stopped t)
          ≡ executed count result vm)
        × (count ≤ initial)
  unfolding report
  report-executed initial t e =
      let context : C = host.consume t.vm.context t.vm.due_insn_count in
      (
        initial - host.get_remaining context,
        t.vm.program_result,
        record t.vm { context = context; program_result = ok 0 },
        rw e refl,
        omega arith,
      )

  -- The interpreter executes to its end every executable that the verifier accepts: on a host
  -- whose instruction meter is never added to, with a positive depth and frames for it, a new
  -- machine and an entrypoint in the program, one step more than the meter allows is enough for
  -- `execute_program` to return, without a panic, and the number of instructions that it reports
  -- is at most what the meter allowed.
  pub execute_program-executed :
      (fuel stack_len : ℕ) (context : C) (call_frames : List CallFrame)
      → IsMetered host
      → IsVerified executable
      → 0 < executable.config.max_call_depth
      → executable.config.max_call_depth ≤ length call_frames
      → executable.entrypoint ≤ length executable.text_bytes / insn_size
      → host.get_remaining context < fuel
      → (count : ℕ) × (result : ProgramResult) × (vm : EbpfVm C) × (execute_program host executable
            fuel
            (new_vm executable.version executable.config context stack_len)
            call_frames
          ≡ executed count result vm)
        × (count ≤ host.get_remaining context)
  unfolding execute_program new_vm
  execute_program-executed fuel stack_len context call_frames m v deep frames entry enough =
      let fits : ltb (length call_frames) executable.config.max_call_depth ≡ false = ground arith in
      let vm : EbpfVm C = new_vm executable.version executable.config context stack_len in
      let ready = initial-IsReady vm call_frames refl deep refl frames entry in
      let (t, e) = run_interpreter-stops fuel _ m v ready (omega arith) in
      rw (fits, e) (report-executed (host.get_remaining context) t v.meter)
