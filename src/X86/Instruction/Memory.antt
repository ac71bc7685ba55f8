-- ===== src/X86/Instruction/Memory.antt =====
-- casestudy/sbpf/src/safe_mode/x86.rs: memory operands, immediates and the stack.
use aeneas2isabelle.Prelude.{
  ℕ, Bool, true, false, Option, none, some, if◌then◌else◌, bit_and, bit_or,
}
use aeneas2isabelle.Prelude.Int.{ℤ, pos, leb_ℤ, i32_min}
use aeneas2isabelle.X86.Types.{
  OperandSize, s8, s16, s32, s64, X86Register, register_code, X86IndirectAccess, X86Instruction,
  default,
}

abbrev is_byte : OperandSize → Bool
is_byte s8 = true
is_byte _ = false

abbrev narrow : OperandSize → OperandSize
narrow s64 = s32
narrow size = size

unfoldable pub lea :
    OperandSize → X86Register → X86Register → Option X86IndirectAccess → X86Instruction
lea size source destination indirect = record default {
  size = size;
  opcode = 0x8d;
  first_operand = register_code destination;
  second_operand = register_code source;
  indirect = indirect;
}

unfoldable pub sign_extend_rax_rdx : OperandSize → X86Instruction
sign_extend_rax_rdx size = record default { size = size; opcode = 0x99; modrm = false }

abbrev load_size : OperandSize → OperandSize
load_size s64 = s64
load_size _ = s32

abbrev load_escape : OperandSize → ℕ
load_escape s8 = 1
load_escape s16 = 1
load_escape _ = 0

abbrev load_opcode : OperandSize → ℕ
load_opcode s8 = 0xb6
load_opcode s16 = 0xb7
load_opcode _ = 0x8b

unfoldable pub load : OperandSize → X86Register → X86Register → X86IndirectAccess → X86Instruction
load size source destination indirect = record default {
  size = load_size size;
  opcode_escape_sequence = load_escape size;
  opcode = load_opcode size;
  first_operand = register_code destination;
  second_operand = register_code source;
  indirect = some indirect;
}

unfoldable pub store : OperandSize → X86Register → X86Register → X86IndirectAccess → X86Instruction
store size source destination indirect = record default {
  size = size;
  opcode = if is_byte size then 0x88 else 0x89;
  first_operand = register_code source;
  second_operand = register_code destination;
  indirect = some indirect;
}

-- `0xb8 | (destination & 0b111)` with an immediate of the operand's size.
load_immediate_at : OperandSize → X86Register → ℤ → X86Instruction
load_immediate_at size destination immediate = record default {
  size = size;
  opcode = bit_or 0xb8 (bit_and (register_code destination) 7);
  modrm = false;
  second_operand = register_code destination;
  immediate_size = size;
  immediate = immediate;
}

-- The sign-extended form, for a negative `i32`.
load_immediate_signed : X86Register → ℤ → X86Instruction
load_immediate_signed destination immediate = record default {
  size = s64;
  opcode = 0xc7;
  second_operand = register_code destination;
  immediate_size = s32;
  immediate = immediate;
}

unfoldable pub load_immediate : X86Register → ℤ → X86Instruction
unfolding load_immediate_at load_immediate_signed
load_immediate destination immediate =
    if leb_ℤ (pos 0) immediate
    then if leb_ℤ immediate (pos 0xffff_ffff)
      then load_immediate_at s32 destination immediate
      else load_immediate_at s64 destination immediate
    else if leb_ℤ i32_min immediate
    then load_immediate_signed destination immediate
    else load_immediate_at s64 destination immediate

unfoldable pub store_immediate : OperandSize → X86Register → X86IndirectAccess → ℤ → X86Instruction
store_immediate size destination indirect immediate = record default {
  size = size;
  opcode = if is_byte size then 0xc6 else 0xc7;
  second_operand = register_code destination;
  indirect = some indirect;
  immediate_size = narrow size;
  immediate = immediate;
}

unfoldable pub push_immediate : OperandSize → ℤ → X86Instruction
push_immediate size immediate = record default {
  size = size;
  opcode = if is_byte size then 0x6a else 0x68;
  modrm = false;
  immediate_size = narrow size;
  immediate = immediate;
}

unfoldable pub push : X86Register → Option X86IndirectAccess → X86Instruction
push source none = record default {
  size = s32;
  opcode = bit_or 0x50 (bit_and (register_code source) 7);
  modrm = false;
  second_operand = register_code source;
}
push source (some access) = record default {
  size = s64;
  opcode = 0xff;
  first_operand = 6;
  second_operand = register_code source;
  indirect = some access;
}

unfoldable pub pop : X86Register → X86Instruction
pop destination = record default {
  size = s32;
  opcode = bit_or 0x58 (bit_and (register_code destination) 7);
  modrm = false;
  second_operand = register_code destination;
}
