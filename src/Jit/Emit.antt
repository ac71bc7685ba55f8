-- ===== src/Jit/Emit.antt =====
-- casestudy/sbpf/src/safe_mode/jit.rs: `emit_register_shift` and `emit_jit_instruction`, a clause
-- for each arm of its `match`.
use aeneas2isabelle.Prelude.{ℕ, ◌^◌, Bool, true, false, none, if◌then◌else◌}
use aeneas2isabelle.Prelude.Int.{ℤ, pos, in_i32, wrap}
use aeneas2isabelle.X86.Types.{OperandSize, s32, s64, X86Register, rcx}
use aeneas2isabelle.X86.Instruction
use aeneas2isabelle.Jit.Types.{
  ShiftOperation, JumpCondition, not_equal, JitInstruction, load_immediate, move_register,
  alu_immediate, alu_register, shift_immediate, shift_register, jump, jump_immediate, jump_register,
  jump_test_immediate, jump_test_register, return, invalid_operand_size,
}
use aeneas2isabelle.Jit.Result.{Result, ok, err, M, ◌>>=◌, ◌>>◌, lift}
use aeneas2isabelle.Jit.State.{emit_ins, relative_to_target_pc}
use aeneas2isabelle.Jit.Registers.{
  mapped_register, register_scratch, alu_encoding, shift_opcode_extension, jump_opcode,
}

-- `source == X86Register::RCX`: the discriminants are compared.
abbrev pub is_rcx : X86Register → Bool
is_rcx rcx = true
is_rcx _ = false

abbrev pub is_s32 : OperandSize → Bool
is_s32 s32 = true
is_s32 _ = false

-- The arm for a destination in RCX: the amount and the value trade places.
unfoldable pub emit_shift_of_rcx : OperandSize → ℕ → X86Register → M (Unit {0})
emit_shift_of_rcx size extension source = do
  emit_ins (Instruction.push source none)
  emit_ins (Instruction.xchg s64 source rcx none)
  emit_ins (Instruction.alu_immediate size 0xd3 extension source (pos 0) none)
  emit_ins (Instruction.mov s64 source rcx)
  emit_ins (Instruction.pop source)

-- The arm for neither operand in RCX: RCX is saved and restored.
unfoldable pub emit_shift_saving_rcx : OperandSize → ℕ → X86Register → X86Register → M (Unit {0})
emit_shift_saving_rcx size extension source destination = do
  emit_ins (Instruction.push rcx none)
  emit_ins (Instruction.mov s64 source rcx)
  emit_ins (Instruction.alu_immediate size 0xd3 extension destination (pos 0) none)
  emit_ins (Instruction.pop rcx)

-- The three ways to bring the amount into RCX.
unfoldable pub emit_shift_by_rcx : OperandSize → ℕ → X86Register → X86Register → M (Unit {0})
unfolding emit_shift_of_rcx emit_shift_saving_rcx
emit_shift_by_rcx size extension source destination =
    if is_rcx source
    then emit_ins (Instruction.alu_immediate size 0xd3 extension destination (pos 0) none)
    else if is_rcx destination
    then emit_shift_of_rcx size extension source
    else emit_shift_saving_rcx size extension source destination

unfoldable pub emit_register_shift :
    OperandSize → ShiftOperation → X86Register → X86Register → M (Unit {0})
unfolding emit_shift_by_rcx
emit_register_shift size operation source destination =
    let shift = emit_shift_by_rcx size (shift_opcode_extension operation) source destination in
    if is_s32 size then emit_ins (Instruction.mov size destination destination) >> shift else shift

-- The value of `LoadImmediate` by operand size.
unfoldable pub load_value : OperandSize → ℤ → Result ℤ
load_value s32 value = ok (pos (wrap (2 ^ 32) value))
load_value s64 value = ok value
load_value _ value = err invalid_operand_size

-- The last two statements of each conditional arm.
unfoldable pub emit_conditional_jump : JumpCondition → ℕ → M (Unit {0})
emit_conditional_jump condition target_pc = do
  displacement ← relative_to_target_pc target_pc 6
  emit_ins (Instruction.conditional_jump_immediate (jump_opcode condition) displacement)

-- The two arms of `AluImmediate`, for a value that fits an immediate operand and one that does not.
unfoldable pub emit_alu_short : OperandSize → ℕ → X86Register → ℤ → M (Unit {0})
emit_alu_short size extension destination value =
    emit_ins (Instruction.alu_immediate size 0x81 extension destination value none)

unfoldable pub emit_alu_wide : OperandSize → ℕ → X86Register → ℤ → M (Unit {0})
emit_alu_wide size opcode destination value = do
  emit_ins (Instruction.load_immediate register_scratch value)
  emit_ins (Instruction.alu size opcode register_scratch destination none)

unfoldable pub emit_jit_instruction : JitInstruction → M (Unit {0})
unfolding load_value emit_conditional_jump emit_alu_short emit_alu_wide
emit_jit_instruction (load_immediate size destination value) = do
  destination ← lift (mapped_register destination)
  value ← lift (load_value size value)
  emit_ins (Instruction.load_immediate destination value)
emit_jit_instruction (move_register size source destination) = do
  source ← lift (mapped_register source)
  destination ← lift (mapped_register destination)
  emit_ins (Instruction.mov size source destination)
emit_jit_instruction (alu_immediate size operation destination value) = do
  destination ← lift (mapped_register destination)
  if in_i32 value
      then emit_alu_short size (alu_encoding operation).1 destination value
      else emit_alu_wide size (alu_encoding operation).0 destination value
emit_jit_instruction (alu_register size operation source destination) = do
  source ← lift (mapped_register source)
  destination ← lift (mapped_register destination)
  emit_ins (Instruction.alu size (alu_encoding operation).0 source destination none)
emit_jit_instruction (shift_immediate size operation destination amount) = do
  destination ← lift (mapped_register destination)
  emit_ins (
      Instruction.alu_immediate size 0xc1 (shift_opcode_extension operation) destination
        (pos amount) none)
emit_jit_instruction (shift_register size operation source destination) = do
  source ← lift (mapped_register source)
  destination ← lift (mapped_register destination)
  emit_register_shift size operation source destination
emit_jit_instruction (jump target_pc) = do
  displacement ← relative_to_target_pc target_pc 5
  emit_ins (Instruction.jump_immediate displacement)
emit_jit_instruction (jump_immediate size condition destination value target_pc) = do
  destination ← lift (mapped_register destination)
  emit_ins (Instruction.cmp_immediate size destination value none)
  emit_conditional_jump condition target_pc
emit_jit_instruction (jump_register size condition source destination target_pc) = do
  source ← lift (mapped_register source)
  destination ← lift (mapped_register destination)
  emit_ins (Instruction.cmp size source destination none)
  emit_conditional_jump condition target_pc
emit_jit_instruction (jump_test_immediate size destination value target_pc) = do
  destination ← lift (mapped_register destination)
  emit_ins (Instruction.test_immediate size destination value none)
  emit_conditional_jump not_equal target_pc
emit_jit_instruction (jump_test_register size source destination target_pc) = do
  source ← lift (mapped_register source)
  destination ← lift (mapped_register destination)
  emit_ins (Instruction.test size source destination none)
  emit_conditional_jump not_equal target_pc
emit_jit_instruction return = emit_ins Instruction.return_near
