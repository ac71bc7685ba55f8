-- ===== src/Jit/Types.antt =====
-- casestudy/sbpf/src/safe_mode/jit.rs: the instructions of the safe subset, the errors and the
-- compiler's state. A `&mut self` method that returns a `Result` takes the state and gives back
-- the result with the new state, in an error too: the caller still holds the compiler then.
use aeneas2isabelle.Prelude.{ℕ, Option, List}
use aeneas2isabelle.Prelude.Int.{ℤ}
use aeneas2isabelle.X86.Types.{OperandSize}

pub data AluOperation : Type 0 where
  add subtract or and xor : AluOperation

pub data ShiftOperation : Type 0 where
  left right arithmetic_right : ShiftOperation

pub data JumpCondition : Type 0 where
  equal not_equal greater greater_or_equal less less_or_equal : JumpCondition
  signed_greater signed_greater_or_equal signed_less signed_less_or_equal : JumpCondition

pub data JitInstruction : Type 0 where
  -- size, destination, value
  load_immediate : OperandSize → ℕ → ℤ → JitInstruction
  -- size, source, destination
  move_register : OperandSize → ℕ → ℕ → JitInstruction
  -- size, operation, destination, value
  alu_immediate : OperandSize → AluOperation → ℕ → ℤ → JitInstruction
  -- size, operation, source, destination
  alu_register : OperandSize → AluOperation → ℕ → ℕ → JitInstruction
  -- size, operation, destination, amount
  shift_immediate : OperandSize → ShiftOperation → ℕ → ℕ → JitInstruction
  -- size, operation, source, destination
  shift_register : OperandSize → ShiftOperation → ℕ → ℕ → JitInstruction
  -- target_pc
  jump : ℕ → JitInstruction
  -- size, condition, destination, value, target_pc
  jump_immediate : OperandSize → JumpCondition → ℕ → ℤ → ℕ → JitInstruction
  -- size, condition, source, destination, target_pc
  jump_register : OperandSize → JumpCondition → ℕ → ℕ → ℕ → JitInstruction
  -- size, destination, value, target_pc
  jump_test_immediate : OperandSize → ℕ → ℤ → ℕ → JitInstruction
  -- size, source, destination, target_pc
  jump_test_register : OperandSize → ℕ → ℕ → ℕ → JitInstruction
  return : JitInstruction

pub record JumpModel : Type 0 where
  pub location : ℕ
  pub target_pc : ℕ

pub data JitModelError : Type 0 where
  invalid_register invalid_jump_target invalid_operand_size : JitModelError
  unsupported_instruction invalid_anchor invalid_program_counter : JitModelError
  anchor_not_set program_counter_not_set : JitModelError
  relative_offset_out_of_range invalid_relocation : JitModelError

pub record JitCompilerModel : Type 0 where
  pub text_section : List ℕ
  pub pc_section : List (Option ℕ)
  pub text_section_jumps : List JumpModel
  pub anchors : List (Option ℕ)
