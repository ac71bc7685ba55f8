-- ===== src/Tests/Execution.antt =====
-- Runs of the interpreter on small programs, with a context that is an instruction meter and a
-- memory that is never mapped.
use aeneas2isabelle.Prelude.{ℕ, ◌+◌, ◌-◌, ◌%◌, ◌≡◌, refl, true, false, List, [], ◌∷◌, replicate}
use aeneas2isabelle.Prelude.Int.{◌+ℤ◌}
use aeneas2isabelle.Ebpf.Insn.{is_pc_in_program, get_insn_unchecked, read_i16, read_i32}
use aeneas2isabelle.Program.{SbpfVersion, v0, v3}
use aeneas2isabelle.Interpreter.Types.{
  ok, err, access_violation, returned, u64_end, Config, Executable, Host, CallFrame,
}
use aeneas2isabelle.Interpreter.Run.{
  new_vm, Execution, executed, unfinished, panicked, execute_program,
}

abbrev pub metered : Host ℕ
metered = record {
  consume = λ c n. c % u64_end - n;
  get_remaining = λ c. c % u64_end;
  load = λ c size addr. (err (access_violation addr), c);
  store = λ c size value addr. (err (access_violation addr), c);
  rust = λ f c a b d e g. (returned (a + b), c);
}

abbrev pub small_config : Config
small_config = record {
  max_call_depth = 4;
  stack_frame_size = 4096;
  enable_stack_frame_gaps = true;
  enable_instruction_meter = true;
  enable_register_tracing = false;
}

abbrev pub executable_of : SbpfVersion → List ℕ → Executable
executable_of version text_bytes = record {
  version = version;
  text_bytes = text_bytes;
  program_vm_addr = 0x1_0000_0000;
  entrypoint = 0;
  config = small_config;
  function_registry = [];
  loader_registry = [];
}

abbrev pub no_frames : List CallFrame
no_frames =
    replicate 4
      (record { caller_saved_registers = replicate 4 0; frame_pointer = 0; target_pc = 0 })

abbrev execute : SbpfVersion → List ℕ → ℕ → Execution ℕ
unfolding execute_program
execute version text_bytes meter =
    execute_program metered (executable_of version text_bytes) 10
      (new_vm version small_config meter 0) no_frames

abbrev summary : Execution ℕ → List ℕ
summary (executed n (ok v) vm) = 0 ∷ n ∷ v ∷ []
summary (executed n (err e) vm) = 1 ∷ n ∷ []
summary panicked = 2 ∷ []
summary unfinished = 3 ∷ []

-- mov64 r0, 5; add64 r0, -7; exit
abbrev pub subtracts : List ℕ
subtracts =
    0xb7 ∷ 0 ∷ 0 ∷ 0 ∷ 5 ∷ 0 ∷ 0 ∷ 0 ∷ 0x07 ∷ 0 ∷ 0 ∷ 0 ∷ 0xf9 ∷ 0xff ∷ 0xff ∷ 0xff ∷ 0x95 ∷ 0 ∷ 0
    ∷ 0 ∷ 0 ∷ 0 ∷ 0 ∷ 0 ∷ []

runs_subtracts : summary (execute v0 subtracts 3) ≡ 0 ∷ 3 ∷ 0xffff_ffff_ffff_fffe ∷ []
unfolding execute new_vm get_insn_unchecked read_i16 read_i32
runs_subtracts = refl

-- With a meter of two instructions it is stopped before the last one.
stops_subtracts : summary (execute v0 subtracts 2) ≡ 1 ∷ 2 ∷ []
unfolding execute new_vm get_insn_unchecked read_i16 read_i32
stops_subtracts = refl

-- mov64 r1, 0; div64 r0, r1; exit
divides_by_zero :
    summary
      (execute v0 (0xb7 ∷ 1 ∷ 0 ∷ 0 ∷ 0 ∷ 0 ∷ 0 ∷ 0 ∷ 0x3f ∷ 0x10 ∷ 0 ∷ 0 ∷ 0 ∷ 0 ∷ 0 ∷ 0 ∷ []) 9)
    ≡ 1 ∷ 2 ∷ []
unfolding execute new_vm get_insn_unchecked read_i16 read_i32
divides_by_zero = refl

-- call 1; exit; mov64 r0, 9; exit, in a version with static calls.
calls :
    summary (
      execute v3
        (0x85 ∷ 0x10 ∷ 0 ∷ 0 ∷ 1 ∷ 0 ∷ 0 ∷ 0 ∷ 0x95 ∷ 0 ∷ 0 ∷ 0 ∷ 0 ∷ 0 ∷ 0 ∷ 0 ∷ 0xb7 ∷ 0 ∷ 0 ∷ 0
          ∷ 9 ∷ 0 ∷ 0 ∷ 0 ∷ 0x95 ∷ 0 ∷ 0 ∷ 0 ∷ 0 ∷ 0 ∷ 0 ∷ 0 ∷ [])
        9)
    ≡ 0 ∷ 4 ∷ 9 ∷ []
unfolding execute new_vm get_insn_unchecked read_i16 read_i32 is_pc_in_program ◌+ℤ◌
calls = refl
