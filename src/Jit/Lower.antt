-- ===== src/Jit/Lower.antt =====
-- casestudy/sbpf/src/safe_mode/jit.rs: `lower_sbpf_instruction` and its helpers.
use aeneas2isabelle.Prelude.{ℕ, ◌^◌, Bool, not, ◌&&◌, ◌==◌, if◌then◌else◌, bit_and, leb}
use aeneas2isabelle.Prelude.Int.{ℤ, pos, negsuc, ◌+ℤ◌, wrap}
use aeneas2isabelle.Ebpf.Opcodes.{
  bpf_alu32_load, bpf_alu64_store, bpf_jmp32, bpf_jmp64, bpf_cls_mask, bpf_alu_op_mask, bpf_x,
  bpf_mov, bpf_add, bpf_sub, bpf_or, bpf_and, bpf_xor, bpf_lsh, bpf_rsh, bpf_arsh, bpf_exit, bpf_ja,
  bpf_jset, bpf_jeq, bpf_jne, bpf_jgt, bpf_jge, bpf_jlt, bpf_jle, bpf_jsgt, bpf_jsge, bpf_jslt,
  bpf_jsle,
}
use aeneas2isabelle.Ebpf.Insn.{Insn, usize_max}
use aeneas2isabelle.X86.Encode.{is_s64}
use aeneas2isabelle.X86.Types.{OperandSize, s32, s64}
use aeneas2isabelle.Jit.Types.{
  AluOperation, add, subtract, or, and, xor, ShiftOperation, left, right, arithmetic_right,
  JumpCondition, equal, not_equal, greater, greater_or_equal, less, less_or_equal, signed_greater,
  signed_greater_or_equal, signed_less, signed_less_or_equal, JitInstruction, load_immediate,
  move_register, alu_immediate, alu_register, shift_immediate, shift_register, jump, jump_immediate,
  jump_register, jump_test_immediate, jump_test_register, return, invalid_jump_target,
  unsupported_instruction,
}
use aeneas2isabelle.Jit.Result.{Result, ok, err, bind}

-- `instruction.opc & ebpf::BPF_X != 0`.
unfoldable pub register_source : Insn → Bool
register_source i = not (bit_and i.opc bpf_x == 0)

unfoldable pub lower_mov : OperandSize → Insn → JitInstruction
unfolding register_source
lower_mov size i =
    if register_source i then move_register size i.src i.dst else load_immediate size i.dst i.imm

unfoldable pub lower_alu : OperandSize → AluOperation → Insn → JitInstruction
unfolding register_source
lower_alu size operation i =
    if register_source i
    then alu_register size operation i.src i.dst
    else alu_immediate size operation i.dst i.imm

unfoldable pub lower_shift : OperandSize → ShiftOperation → Insn → JitInstruction
unfolding register_source
lower_shift size operation i =
    if register_source i
    then shift_register size operation i.src i.dst
    else shift_immediate size operation i.dst (wrap (2 ^ 8) i.imm)

unfoldable pub lower_alu_instruction : OperandSize → Insn → Result JitInstruction
unfolding lower_mov lower_alu lower_shift
lower_alu_instruction size i =
    let operation = bit_and i.opc bpf_alu_op_mask in
    if operation == bpf_mov
    then ok (lower_mov size i)
    else if operation == bpf_add
    then ok (lower_alu size add i)
    else if operation == bpf_sub
    then ok (lower_alu size subtract i)
    else if operation == bpf_or
    then ok (lower_alu size or i)
    else if operation == bpf_and
    then ok (lower_alu size and i)
    else if operation == bpf_xor
    then ok (lower_alu size xor i)
    else if operation == bpf_lsh
    then ok (lower_shift size left i)
    else if operation == bpf_rsh
    then ok (lower_shift size right i)
    else if operation == bpf_arsh
    then ok (lower_shift size arithmetic_right i)
    else err unsupported_instruction

-- `target < 0 || target > usize::MAX as i128`.
usize_of_target : ℤ → Result ℕ
usize_of_target (negsuc n) = err invalid_jump_target
usize_of_target (pos n) = if leb n usize_max then ok n else err invalid_jump_target

unfoldable pub branch_target : ℕ → ℤ → Result ℕ
unfolding ◌+ℤ◌ usize_of_target
branch_target pc offset = usize_of_target (pos pc +ℤ offset +ℤ pos 1)

unfoldable pub jump_condition_from_operation : ℕ → Result JumpCondition
jump_condition_from_operation operation =
    if operation == bpf_jeq
    then ok equal
    else if operation == bpf_jne
    then ok not_equal
    else if operation == bpf_jgt
    then ok greater
    else if operation == bpf_jge
    then ok greater_or_equal
    else if operation == bpf_jlt
    then ok less
    else if operation == bpf_jle
    then ok less_or_equal
    else if operation == bpf_jsgt
    then ok signed_greater
    else if operation == bpf_jsge
    then ok signed_greater_or_equal
    else if operation == bpf_jslt
    then ok signed_less
    else if operation == bpf_jsle
    then ok signed_less_or_equal
    else err unsupported_instruction

-- What `lower_jump_instruction` does once it has a target.
unfoldable pub lower_branch : OperandSize → Insn → ℕ → Result JitInstruction
unfolding register_source jump_condition_from_operation
lower_branch size i target_pc =
    let operation = bit_and i.opc bpf_alu_op_mask in
    if is_s64 size && (operation == bpf_ja)
    then ok (jump target_pc)
    else if operation == bpf_jset
    then if register_source i
      then ok (jump_test_register size i.src i.dst target_pc)
      else ok (jump_test_immediate size i.dst i.imm target_pc)
    else bind (jump_condition_from_operation operation) λ condition.
      if register_source i
      then ok (jump_register size condition i.src i.dst target_pc)
      else ok (jump_immediate size condition i.dst i.imm target_pc)

unfoldable pub lower_jump_instruction : OperandSize → ℕ → Insn → Result JitInstruction
unfolding branch_target lower_branch
lower_jump_instruction size pc i =
    if is_s64 size && (bit_and i.opc bpf_alu_op_mask == bpf_exit)
    then ok return
    else bind (branch_target pc i.off) (lower_branch size i)

unfoldable pub lower_sbpf_instruction : ℕ → Insn → Result JitInstruction
unfolding lower_alu_instruction lower_jump_instruction
lower_sbpf_instruction pc i =
    let class = bit_and i.opc bpf_cls_mask in
    if class == bpf_alu32_load
    then lower_alu_instruction s32 i
    else if class == bpf_alu64_store
    then lower_alu_instruction s64 i
    else if class == bpf_jmp32
    then lower_jump_instruction s32 pc i
    else if class == bpf_jmp64
    then lower_jump_instruction s64 pc i
    else err unsupported_instruction
