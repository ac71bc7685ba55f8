-- ===== src/X86/Types.antt =====
-- casestudy/sbpf/src/safe_mode/x86.rs: registers, addressing modes and the instruction record, and
-- from casestudy/sbpf/src/safe_mode/jit.rs the operand sizes.
use aeneas2isabelle.Prelude.{ℕ, Bool, true, Option, none, List, [], ◌∷◌}
use aeneas2isabelle.Prelude.Int.{ℤ, pos}

pub data OperandSize : Type 0 where
  s0 s8 s16 s32 s64 : OperandSize

pub data X86Register : Type 0 where
  rax rcx rdx rbx rsp rbp rsi rdi : X86Register
  r8 r9 r10 r11 r12 r13 r14 r15 : X86Register
  mm0 mm1 mm2 mm3 mm4 mm5 mm6 mm7 : X86Register

-- `register as u8`.
unfoldable pub register_code : X86Register → ℕ
register_code rax = 0
register_code rcx = 1
register_code rdx = 2
register_code rbx = 3
register_code rsp = 4
register_code rbp = 5
register_code rsi = 6
register_code rdi = 7
register_code r8 = 8
register_code r9 = 9
register_code r10 = 10
register_code r11 = 11
register_code r12 = 12
register_code r13 = 13
register_code r14 = 14
register_code r15 = 15
register_code mm0 = 16
register_code mm1 = 17
register_code mm2 = 18
register_code mm3 = 19
register_code mm4 = 20
register_code mm5 = 21
register_code mm6 = 22
register_code mm7 = 23

abbrev pub argument_registers : List X86Register
argument_registers = rdi ∷ rsi ∷ rdx ∷ rcx ∷ r8 ∷ r9 ∷ []

abbrev pub caller_saved_registers : List X86Register
caller_saved_registers = rax ∷ rcx ∷ rdx ∷ rsi ∷ rdi ∷ r8 ∷ r9 ∷ r10 ∷ r11 ∷ []

abbrev pub callee_saved_registers : List X86Register
callee_saved_registers = rbp ∷ rbx ∷ r12 ∷ r13 ∷ r14 ∷ r15 ∷ []

pub data X86IndirectAccess : Type 0 where
  -- `[second_operand + offset]`
  offset : ℤ → X86IndirectAccess
  -- `[second_operand + offset + index << shift]`
  offset_index_shift : ℤ → X86Register → ℕ → X86IndirectAccess

pub data FenceType : Type 0 where
  load_fence all_fence store_fence : FenceType

-- `fence_type as u8`.
unfoldable pub fence_code : FenceType → ℕ
fence_code load_fence = 5
fence_code all_fence = 6
fence_code store_fence = 7

pub record X86Instruction : Type 0 where
  pub size : OperandSize
  pub opcode_escape_sequence : ℕ
  pub opcode : ℕ
  pub modrm : Bool
  pub indirect : Option X86IndirectAccess
  pub first_operand : ℕ
  pub second_operand : ℕ
  pub immediate_size : OperandSize
  pub immediate : ℤ

abbrev pub default : X86Instruction
default = record {
  size = s0;
  opcode_escape_sequence = 0;
  opcode = 0;
  modrm = true;
  indirect = none;
  first_operand = 0;
  second_operand = 0;
  immediate_size = s0;
  immediate = pos 0;
}
