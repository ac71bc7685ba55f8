-- ===== src/Interpreter/Types.antt =====
-- casestudy/sbpf/src/vm.rs, error.rs and interpreter.rs: the configuration, the state of the
-- virtual machine and of the interpreter, and the errors that end a program.
use aeneas2isabelle.Prelude.{ℕ, ◌-◌, Bool, Option, none, some, List, ltb, if◌then◌else◌}
use aeneas2isabelle.Program.{SbpfVersion}
use aeneas2isabelle.Program.Registry.{FunctionRegistry}

-- The variants of `EbpfError` that the interpreter raises, and two that a memory access or a
-- built-in function returns, with what they carry as a number.
pub data EbpfError : Type 0 where
  call_depth_exceeded divide_by_zero divide_overflow execution_overrun : EbpfError
  call_outside_text_segment exceeded_max_instructions : EbpfError
  invalid_instruction unsupported_instruction : EbpfError
  access_violation syscall_error : ℕ → EbpfError

pub data ProgramResult : Type 0 where
  ok : ℕ → ProgramResult
  err : EbpfError → ProgramResult

-- What a built-in function returns: a value or an error of its own.
pub data RustResult : Type 0 where
  returned failed : ℕ → RustResult

-- The settings that the interpreter reads.
pub record Config : Type 0 where
  pub max_call_depth : ℕ
  pub stack_frame_size : ℕ
  pub enable_stack_frame_gaps : Bool
  pub enable_instruction_meter : Bool
  pub enable_register_tracing : Bool

-- What the interpreter reads of an executable: its version, its text section and where that is
-- mapped, its functions, and the built-in functions of its loader, each a number.
pub record Executable : Type 0 where
  pub version : SbpfVersion
  pub text_bytes : List ℕ
  pub program_vm_addr : ℕ
  pub entrypoint : ℕ
  pub config : Config
  pub function_registry : FunctionRegistry ℕ
  pub loader_registry : FunctionRegistry ℕ

-- What the program runs on: the context object of type `C`, which holds the memory mapping, and
-- the host's built-in functions. `load` and `store` take the size of the access in bytes; `rust`
-- takes the number of the function and its five arguments.
pub record Host (C : Type 0) : Type 0 where
  pub consume : C → ℕ → C
  pub get_remaining : C → ℕ
  pub load : C → ℕ → ℕ → ProgramResult × C
  pub store : C → ℕ → ℕ → ℕ → ProgramResult × C
  pub rust : ℕ → C → ℕ → ℕ → ℕ → ℕ → ℕ → RustResult × C

pub record CallFrame : Type 0 where
  pub caller_saved_registers : List ℕ
  pub frame_pointer : ℕ
  pub target_pc : ℕ

pub record EbpfVm (C : Type 0) : Type 0 where
  pub call_depth : ℕ
  pub context : C
  pub previous_instruction_meter : ℕ
  pub due_insn_count : ℕ
  pub registers : List ℕ
  pub program_result : ProgramResult
  pub register_trace : List (List ℕ)

pub record Interpreter (C : Type 0) : Type 0 where
  pub vm : EbpfVm C
  pub call_frames : List CallFrame
  pub reg : List ℕ

-- How a part of a step ends: with a value, with the end of the program (`step` returns false), or
-- with the panic of an index, of an arithmetic overflow or of a division.
pub data Outcome (C : Type 0) (A : Type 0) : Type 0 where
  running : A → Outcome C A
  stopped : Interpreter C → Outcome C A
  panic : Outcome C A

infixl 5 ◌>>=◌
abbrev pub ◌>>=◌ : {C A B : Type 0} → Outcome C A → (A → Outcome C B) → Outcome C B
running a >>= f = f a
stopped s >>= f = stopped s
panic >>= f = panic

-- An index that is out of range panics.
abbrev pub index : {C A : Type 0} → Option A → Outcome C A
index none = panic
index (some a) = running a

abbrev pub u64_end : ℕ
u64_end = 0x1_0000_0000_0000_0000

-- Arithmetic on `u64` and `usize` panics on overflow.
abbrev pub checked : {C : Type 0} → ℕ → Outcome C ℕ
checked n = if ltb n u64_end then running n else panic

abbrev pub checked_sub : {C : Type 0} → ℕ → ℕ → Outcome C ℕ
checked_sub a b = if ltb a b then panic else running (a - b)
