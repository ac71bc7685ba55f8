-- ===== src/X86/Instruction/Alu.antt =====
-- casestudy/sbpf/src/safe_mode/x86.rs: arithmetic, moves between registers and comparisons.
use aeneas2isabelle.Prelude.{
  ℕ, Bool, true, false, not, Option, none, some, ◌==◌, if◌then◌else◌, bit_and, bit_or,
}
use aeneas2isabelle.Prelude.Int.{ℤ, pos}
use aeneas2isabelle.X86.Types.{
  OperandSize, s0, s8, s16, s32, s64, X86Register, register_code, X86IndirectAccess, X86Instruction,
  default,
}

abbrev pub is_s8 : OperandSize → Bool
is_s8 s8 = true
is_s8 _ = false

-- `if matches!(size, OperandSize::S64) { OperandSize::S32 } else { size }`.
abbrev pub immediate_size_of : OperandSize → OperandSize
immediate_size_of s64 = s32
immediate_size_of size = size

unfoldable pub alu_escaped :
    OperandSize → ℕ → ℕ → X86Register → X86Register → Option X86IndirectAccess → X86Instruction
alu_escaped size escape_sequence opcode source destination indirect = record default {
  size = size;
  opcode_escape_sequence = escape_sequence;
  opcode = opcode;
  first_operand = register_code source;
  second_operand = register_code destination;
  indirect = indirect;
}

-- The `match opcode` of `alu_immediate_escaped`.
abbrev pub alu_immediate_size : ℕ → ℕ → OperandSize
alu_immediate_size opcode extension =
    if opcode == 0xc1
    then s8
    else if opcode == 0x81
    then s32
    else if opcode == 0xf7
    then (if extension == 0 then s32 else s0)
    else s0

unfoldable pub alu_immediate_escaped :
    OperandSize → ℕ → ℕ → ℕ → X86Register → ℤ → Option X86IndirectAccess → X86Instruction
alu_immediate_escaped size escape_sequence opcode extension destination immediate indirect =
    record default {
      size = size;
      opcode_escape_sequence = escape_sequence;
      opcode = opcode;
      first_operand = extension;
      second_operand = register_code destination;
      immediate_size = alu_immediate_size opcode extension;
      immediate = immediate;
      indirect = indirect;
    }

unfoldable pub alu :
    OperandSize → ℕ → X86Register → X86Register → Option X86IndirectAccess → X86Instruction
unfolding alu_escaped
alu size opcode source destination indirect = alu_escaped size 0 opcode source destination indirect

unfoldable pub alu_immediate :
    OperandSize → ℕ → ℕ → X86Register → ℤ → Option X86IndirectAccess → X86Instruction
unfolding alu_immediate_escaped
alu_immediate size opcode extension destination immediate indirect =
    alu_immediate_escaped size 0 opcode extension destination immediate indirect

unfoldable pub mov : OperandSize → X86Register → X86Register → X86Instruction
mov size source destination = record default {
  size = size;
  opcode = 0x89;
  first_operand = register_code source;
  second_operand = register_code destination;
}

unfoldable pub mov_with_sign_extension : OperandSize → X86Register → X86Register → X86Instruction
mov_with_sign_extension size source destination = record default {
  size = size;
  opcode = 0x63;
  first_operand = register_code destination;
  second_operand = register_code source;
}

-- `register as u8 & 16 != 0`.
is_mmx : X86Register → Bool
is_mmx r = not (bit_and (register_code r) 16 == 0)

unfoldable pub mov_mmx : OperandSize → X86Register → X86Register → X86Instruction
unfolding is_mmx
mov_mmx size source destination =
    if is_mmx destination
    then record default {
      size = size;
      opcode_escape_sequence = 1;
      opcode = if is_mmx source then 0x6f else 0x6e;
      first_operand = bit_and (register_code destination) 0xf;
      second_operand = bit_and (register_code source) 0xf;
    }
    else record default {
      size = size;
      opcode_escape_sequence = 1;
      opcode = 0x7e;
      first_operand = bit_and (register_code source) 0xf;
      second_operand = bit_and (register_code destination) 0xf;
    }

unfoldable pub cmov : OperandSize → ℕ → X86Register → X86Register → X86Instruction
cmov size condition source destination = record default {
  size = size;
  opcode_escape_sequence = 1;
  opcode = condition;
  first_operand = register_code destination;
  second_operand = register_code source;
}

unfoldable pub xchg :
    OperandSize → X86Register → X86Register → Option X86IndirectAccess → X86Instruction
xchg size source destination indirect = record default {
  size = size;
  opcode = 0x87;
  first_operand = register_code source;
  second_operand = register_code destination;
  indirect = indirect;
}

-- `0xc8 | (destination & 0b111)`.
bswap_wide : OperandSize → X86Register → X86Instruction
bswap_wide size destination = record default {
  size = size;
  opcode_escape_sequence = 1;
  opcode = bit_or 0xc8 (bit_and (register_code destination) 7);
  modrm = false;
  second_operand = register_code destination;
}

-- `none` is the panic on an invalid operand size.
unfoldable pub bswap : OperandSize → X86Register → Option X86Instruction
unfolding bswap_wide
bswap s16 destination = some (record default {
  size = s16;
  opcode = 0xc1;
  second_operand = register_code destination;
  immediate_size = s8;
  immediate = pos 8;
})
bswap s32 destination = some (bswap_wide s32 destination)
bswap s64 destination = some (bswap_wide s64 destination)
bswap _ destination = none

unfoldable pub test :
    OperandSize → X86Register → X86Register → Option X86IndirectAccess → X86Instruction
test size source destination indirect = record default {
  size = size;
  opcode = if is_s8 size then 0x84 else 0x85;
  first_operand = register_code source;
  second_operand = register_code destination;
  indirect = indirect;
}

unfoldable pub test_immediate :
    OperandSize → X86Register → ℤ → Option X86IndirectAccess → X86Instruction
test_immediate size destination immediate indirect = record default {
  size = size;
  opcode = if is_s8 size then 0xf6 else 0xf7;
  first_operand = 0;
  second_operand = register_code destination;
  immediate_size = immediate_size_of size;
  immediate = immediate;
  indirect = indirect;
}

unfoldable pub cmp :
    OperandSize → X86Register → X86Register → Option X86IndirectAccess → X86Instruction
cmp size source destination indirect = record default {
  size = size;
  opcode = if is_s8 size then 0x38 else 0x39;
  first_operand = register_code source;
  second_operand = register_code destination;
  indirect = indirect;
}

unfoldable pub cmp_immediate :
    OperandSize → X86Register → ℤ → Option X86IndirectAccess → X86Instruction
cmp_immediate size destination immediate indirect = record default {
  size = size;
  opcode = if is_s8 size then 0x80 else 0x81;
  first_operand = 7;
  second_operand = register_code destination;
  immediate_size = immediate_size_of size;
  immediate = immediate;
  indirect = indirect;
}
