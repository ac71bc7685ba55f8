-- ===== src/X86/Instruction/Control.antt =====
-- casestudy/sbpf/src/safe_mode/x86.rs: jumps, calls and the instructions with no operand.
use aeneas2isabelle.Prelude.{ℕ, false, Option, ◌==◌, if◌then◌else◌}
use aeneas2isabelle.Prelude.Int.{ℤ, pos}
use aeneas2isabelle.X86.Types.{
  s8, s32, s64, X86Register, register_code, X86IndirectAccess, FenceType, fence_code,
  X86Instruction, default,
}

unfoldable pub conditional_jump_immediate : ℕ → ℤ → X86Instruction
conditional_jump_immediate opcode relative_destination = record default {
  size = s32;
  opcode_escape_sequence = 1;
  opcode = opcode;
  modrm = false;
  immediate_size = s32;
  immediate = relative_destination;
}

unfoldable pub jump_immediate : ℤ → X86Instruction
jump_immediate relative_destination = record default {
  size = s32;
  opcode = 0xe9;
  modrm = false;
  immediate_size = s32;
  immediate = relative_destination;
}

unfoldable pub jump_reg : X86Register → Option X86IndirectAccess → X86Instruction
jump_reg destination indirect = record default {
  size = s64;
  opcode = 0xff;
  first_operand = 4;
  second_operand = register_code destination;
  indirect = indirect;
}

unfoldable pub call_immediate : ℤ → X86Instruction
call_immediate relative_destination = record default {
  size = s32;
  opcode = 0xe8;
  modrm = false;
  immediate_size = s32;
  immediate = relative_destination;
}

unfoldable pub call_reg : X86Register → Option X86IndirectAccess → X86Instruction
call_reg destination indirect = record default {
  size = s64;
  opcode = 0xff;
  first_operand = 2;
  second_operand = register_code destination;
  indirect = indirect;
}

unfoldable pub return_near : X86Instruction
return_near = record default { size = s32; opcode = 0xc3; modrm = false }

unfoldable pub noop : X86Instruction
noop = record default { size = s32; opcode = 0x90; modrm = false }

unfoldable pub interrupt : ℕ → X86Instruction
interrupt immediate =
    if immediate == 3
    then record default { size = s32; opcode = 0xcc; modrm = false }
    else record default {
      size = s32;
      opcode = 0xcd;
      modrm = false;
      immediate_size = s8;
      immediate = pos immediate;
    }

unfoldable pub cycle_count : X86Instruction
cycle_count = record default {
  size = s32;
  opcode_escape_sequence = 1;
  opcode = 0x31;
  modrm = false;
}

unfoldable pub fence : FenceType → X86Instruction
fence fence_type = record default {
  size = s32;
  opcode_escape_sequence = 1;
  opcode = 0xae;
  first_operand = fence_code fence_type;
}
