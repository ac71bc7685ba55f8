-- ===== src/Tests/Interpreted.antt =====
-- The theorems on the interpreter at small programs.
use aeneas2isabelle.Prelude.{
  ℕ, ◌+◌, ◌%◌, ◌^◌, ◌≤◌, ◌<◌, ◌≡◌, ◌≢◌, ◌⊎◌, refl, Bool, true, ◌&&◌, some, List, [], ◌∷◌, ltb,
  get_elem?, arith, replicate, set,
}
use aeneas2isabelle.Prelude.Int.{pos}
use aeneas2isabelle.Prelude.Words.{AllBytes}
use aeneas2isabelle.Ebpf.Insn.{Insn, get_insn, get_insn_unchecked, read_i16, read_i32}
use aeneas2isabelle.Program.{v0, v1}
use aeneas2isabelle.Program.Registry.{
  FunctionRegistry, register_function, registered, lookup_by_key,
}
use aeneas2isabelle.Program.Registry.Lookup.{register_function-lookup_by_key}
use aeneas2isabelle.Verifier.Types.{accepted}
use aeneas2isabelle.Verifier.Arms.{plain}
use aeneas2isabelle.Verifier.Verify.{check_of, verify, verify_insn}
use aeneas2isabelle.Interpreter.Types.{
  ProgramResult, err, call_depth_exceeded, Executable, EbpfVm, Interpreter, running, stopped,
}
use aeneas2isabelle.Interpreter.Arms.{Body}
use aeneas2isabelle.Interpreter.Frames.{pc_reg, with_frame, push_frame}
use aeneas2isabelle.Interpreter.Calls.{exit}
use aeneas2isabelle.Interpreter.Calls.RoundTrip.{push_frame-exit}
use aeneas2isabelle.Interpreter.Calls.Depth.{IsCallable, IsRefused, IsPushed, push_frame-cases}
use aeneas2isabelle.Interpreter.Step.{first_op, all_ops, step}
use aeneas2isabelle.Interpreter.Step.Supported.{relies_on, check_of-first_op}
use aeneas2isabelle.Interpreter.Step.Arithmetic.{
  sum32, difference32, first_op-add32_reg, first_op-sub32_reg, first_op-arithmetic,
}
use aeneas2isabelle.Interpreter.Run.{new_vm, executed, prepared, run_interpreter, execute_program}
use aeneas2isabelle.Interpreter.Safety.{Safe, IsMetered, IsVerified, allowance}
use aeneas2isabelle.Interpreter.Safety.Stops.{Stop, verify-Stop}
use aeneas2isabelle.Interpreter.Safety.Steps.{IsReady, step-Safe}
use aeneas2isabelle.Interpreter.Safety.Run.{
  initial-IsReady, run_interpreter-stops, execute_program-executed,
}
use aeneas2isabelle.Tests.Execution.{metered, small_config, executable_of, no_frames, subtracts}

abbrev all_bytes : List ℕ → Bool
all_bytes [] = true
all_bytes (b ∷ bs) = ltb b 256 && all_bytes bs

all_bytes-AllBytes : (bs : List ℕ) → all_bytes bs ≡ true → AllBytes bs
all_bytes-AllBytes [] h = tt
all_bytes-AllBytes (b ∷ bs) h = (ground arith, all_bytes-AllBytes bs (ground arith))

metered-IsMetered : IsMetered metered
metered-IsMetered = record {
  bounded = λ c. omega arith;
  consumed = λ c n. omega arith;
  loaded = λ c size addr. refl;
  stored = λ c size value addr. refl;
  called = λ function c a b d e g. omega arith;
}

abbrev subtracting : Executable
subtracting = executable_of v0 subtracts

accepts_subtracts : verify subtracts v0 ≡ accepted tt
unfolding verify verify_insn get_insn get_insn_unchecked read_i16 read_i32
accepts_subtracts = refl

subtracting-IsVerified : IsVerified subtracting
subtracting-IsVerified = record {
  meter = refl;
  bytes = all_bytes-AllBytes subtracts refl;
  small = omega arith;
  verified = accepts_subtracts;
  depth = omega arith;
  stack = omega arith;
}

abbrev machine : EbpfVm ℕ
machine = record {
  call_depth = 0;
  context = 3;
  previous_instruction_meter = 0;
  due_insn_count = 0;
  registers = replicate 12 0;
  program_result = err call_depth_exceeded;
  register_trace = [];
}

abbrev start : Interpreter ℕ
start = record {
  vm = prepared metered subtracting machine;
  call_frames = no_frames;
  reg = (prepared metered subtracting machine).registers;
}

start-IsReady : IsReady metered subtracting start
start-IsReady =
    initial-IsReady metered subtracting machine no_frames refl (omega arith) refl (omega arith)
      (omega arith)

execute_program-executed_example :
    (count : ℕ) × (result : ProgramResult) × (vm : EbpfVm ℕ) × (execute_program metered subtracting
        4
        (new_vm v0 small_config 3 0)
        no_frames
      ≡ executed count result vm)
    × (count ≤ 3 % 0x1_0000_0000_0000_0000)
execute_program-executed_example =
    execute_program-executed metered subtracting 4 0 3 no_frames metered-IsMetered
      subtracting-IsVerified (omega arith) (omega arith) (omega arith) (omega arith)

run_interpreter-stops_example :
    (t : Interpreter ℕ) × (run_interpreter metered subtracting 4 start ≡ stopped t)
run_interpreter-stops_example =
    run_interpreter-stops metered subtracting 4 start metered-IsMetered subtracting-IsVerified
      start-IsReady (omega arith)

step-Safe_example :
    Safe
      (λ t.
        IsReady metered subtracting t
        × (allowance metered subtracting t < allowance metered subtracting start))
      (step metered subtracting start)
step-Safe_example =
    step-Safe metered subtracting start metered-IsMetered subtracting-IsVerified start-IsReady

verify-Stop_example : Stop subtracts v0 2
verify-Stop_example = verify-Stop subtracts v0 2 accepts_subtracts (omega arith)

abbrev move : Insn
move = record { ptr = 0; opc = 0xb7; dst = 0; src = 0; off = pos 0; imm = pos 5 }

move-plain : check_of v0 move ≡ some plain
unfolding check_of
move-plain = refl

check_of-first_op_example :
    (body : Body) × (first_op 0xb7 (all_ops v0 move) ≡ some body) × (relies_on body plain ≡ true)
check_of-first_op_example = check_of-first_op v0 move plain (omega arith) move-plain

first_op-arithmetic_example :
    (sum32 v0 7 0xffff_ffff % 2 ^ 32 ≡ (7 + 0xffff_ffff) % 2 ^ 32)
    × ((difference32 v0 7 0xffff_ffff + 0xffff_ffff) % 2 ^ 32 ≡ 7 % 2 ^ 32)
first_op-arithmetic_example =
    first_op-arithmetic v0 move (sum32 v0) (difference32 v0) 7 0xffff_ffff
      (first_op-add32_reg v0 move) (first_op-sub32_reg v0 move)

abbrev calling : Executable
calling = executable_of v1 subtracts

start_calls : push_frame calling start ≡ running (with_frame start 0 1 1)
unfolding push_frame
start_calls = refl

push_frame-exit_example :
    (u : Interpreter ℕ) × (pc : ℕ) × (exit metered calling (with_frame start 0 1 1)
      ≡ running (u, pc + 1))
    × (get_elem? start.reg pc_reg ≡ some pc)
    × (u.vm.call_depth ≡ 0)
    × ((i : ℕ) → 6 ≤ i → i ≤ 10 → get_elem? u.reg i ≡ get_elem? start.reg i)
    × ((i : ℕ) → i < 6 → get_elem? u.reg i ≡ get_elem? start.reg i)
push_frame-exit_example =
    push_frame-exit calling metered start (with_frame start 0 1 1) (with_frame start 0 1 1)
      start_calls refl refl refl refl

abbrev shallow : Executable
shallow = record calling { config = record small_config { max_call_depth = 1 } }

abbrev too_deep : Interpreter ℕ
too_deep = record (with_frame start 0 1 1) {
  vm = record start.vm {
    call_depth = 1;
    registers = set start.vm.registers pc_reg 0;
    program_result = err call_depth_exceeded;
  };
}

start_stops : push_frame shallow start ≡ stopped too_deep
unfolding push_frame
start_stops = refl

start-IsCallable : IsCallable shallow start
start-IsCallable = record {
  registers = refl;
  frame = omega arith;
  depth = omega arith;
  frame_size = omega arith;
  pc = λ pc at. (let at_start : 0 ≡ pc = cc in omega arith);
}

push_frame-cases_example :
    ((0 + 1 ≡ 1) × (t : Interpreter ℕ) × IsRefused shallow start t)
    ⊎ ((0 + 1 ≢ 1) × (t : Interpreter ℕ) × IsPushed shallow start t)
push_frame-cases_example = push_frame-cases shallow start start-IsCallable

abbrev one_function : FunctionRegistry ℕ
one_function = record { key = 5; name = []; value = 7 } ∷ []

registers_one : register_function [] 5 [] 7 ≡ registered one_function
unfolding register_function
registers_one = refl

register_function-lookup_by_key_example :
    ((found : List ℕ) × (lookup_by_key one_function 5 ≡ some (found, 7)))
    × ((other : ℕ) → other ≢ 5 → lookup_by_key one_function other ≡ lookup_by_key [] other)
register_function-lookup_by_key_example =
    register_function-lookup_by_key [] one_function 5 7 [] registers_one
