-- ===== src/Interpreter/Safety.antt =====
-- What the interpreter keeps from step to step on a program that the verifier accepts.
pub mod Frames
pub mod Calls
pub mod Targets
pub mod Exit
pub mod Fetch
pub mod Checked
pub mod Bodies
pub mod Dispatch
pub mod Stops
pub mod Known
pub mod Steps
pub mod Run
use aeneas2isabelle.Prelude.{
  ℕ, ◌+◌, ◌-◌, ◌*◌, ◌/◌, ◌≤◌, ◌<◌, ◌≡◌, true, Option, none, some, List, length, get_elem?,
}
use aeneas2isabelle.Prelude.Words.{AllBytes}
use aeneas2isabelle.Ebpf.Opcodes.{insn_size}
use aeneas2isabelle.Ebpf.Insn.{usize_max}
use aeneas2isabelle.Verifier.Types.{accepted}
use aeneas2isabelle.Verifier.Verify.{verify}
use aeneas2isabelle.Interpreter.Types.{
  Executable, Host, CallFrame, EbpfVm, Interpreter, Outcome, running, stopped, panic, ◌>>=◌,
  u64_end,
}
use aeneas2isabelle.Interpreter.Frames.{pc_reg}

-- An outcome that is no panic, and whose value has a property.
pub data Safe {C A : Type 0} (P : A → Type 0) : Outcome C A → Type 0 where
  goes : (a : A) → P a → Safe P (running a)
  ends : (s : Interpreter C) → Safe P (stopped s)

pub >>=-Safe :
    {C A B : Type 0} {P : A → Type 0} {Q : B → Type 0} (m : Outcome C A) (f : A → Outcome C B)
    → Safe P m
    → ((a : A) → P a → Safe Q (f a))
    → Safe Q (m >>= f)
>>=-Safe _ f (goes a p) k = k a p
>>=-Safe _ f (ends s) k = ends s

pub Safe-map :
    {C A : Type 0} {P Q : A → Type 0} (m : Outcome C A)
    → Safe P m
    → ((a : A) → P a → Q a)
    → Safe Q m
Safe-map _ (goes a p) k = goes a (k a p)
Safe-map _ (ends s) k = ends s

-- The host's instruction meter: `consume` takes off the amount, and neither memory accesses nor
-- built-in functions add to it.
pub record IsMetered {C : Type 0} (host : Host C) : Type 0 where
  pub bounded : (c : C) → host.get_remaining c < u64_end
  pub consumed : (c : C) (n : ℕ) → host.get_remaining (host.consume c n) ≡ host.get_remaining c - n
  pub loaded :
      (c : C) (size addr : ℕ)
      → host.get_remaining ((host.load c size addr).1) ≡ host.get_remaining c
  pub stored :
      (c : C) (size value addr : ℕ)
      → host.get_remaining ((host.store c size value addr).1) ≡ host.get_remaining c
  pub called :
      (function : ℕ) (c : C) (a b d e g : ℕ)
      → host.get_remaining ((host.rust function c a b d e g).1) ≤ host.get_remaining c

-- An executable that the verifier accepts, with the instruction meter on and sizes that machine
-- words hold.
pub record IsVerified (executable : Executable) : Type 0 where
  pub meter : executable.config.enable_instruction_meter ≡ true
  pub bytes : AllBytes executable.text_bytes
  pub small : length executable.text_bytes < usize_max
  pub verified : verify executable.text_bytes executable.version ≡ accepted tt
  pub depth : executable.config.max_call_depth < u64_end
  pub stack : executable.config.stack_frame_size * 2 < u64_end

module _ {C : Type 0} (host : Host C) (executable : Executable) where
  -- The number of instructions of the program.
  abbrev pub program_end : ℕ
  program_end = length executable.text_bytes / insn_size

  -- The machine between two parts of a step, the program counter aside.
  pub record IsSound (s : Interpreter C) : Type 0 where
    pub reg_length : length s.reg ≡ 12
    pub registers_length : length s.vm.registers ≡ 12
    pub depth : s.vm.call_depth < executable.config.max_call_depth
    pub frames_length : executable.config.max_call_depth ≤ length s.call_frames
    pub frames :
        (i : ℕ) (f : CallFrame)
        → i < s.vm.call_depth
        → get_elem? s.call_frames i ≡ some f
        → (f.target_pc ≤ program_end) × (length f.caller_saved_registers ≡ 4)
    pub due : s.vm.due_insn_count ≤ s.vm.previous_instruction_meter
    pub remaining : host.get_remaining s.vm.context ≡ s.vm.previous_instruction_meter

  -- The instructions that the meter still allows.
  abbrev pub allowance : Interpreter C → ℕ
  allowance s = s.vm.previous_instruction_meter - s.vm.due_insn_count

  -- What holds of the state after the body of an arm, and of where the step goes on.
  pub record IsDone (before : ℕ) (done : Interpreter C × ℕ) : Type 0 where
    pub sound : IsSound done.0
    pub inside : done.1 ≤ program_end
    pub cheaper : allowance done.0 ≤ before
