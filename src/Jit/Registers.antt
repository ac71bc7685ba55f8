-- ===== src/Jit/Registers.antt =====
-- casestudy/sbpf/src/safe_mode/jit.rs: the tables of the code generator.
use aeneas2isabelle.Prelude.{ℕ, List, [], ◌∷◌, get_elem?}
use aeneas2isabelle.X86.Types.{
  X86Register, rax, rcx, rdx, rbx, rsi, r8, r9, r11, r12, r13, r14, r15,
}
use aeneas2isabelle.Jit.Types.{
  AluOperation, add, subtract, or, and, xor, ShiftOperation, left, right, arithmetic_right,
  JumpCondition, equal, not_equal, greater, greater_or_equal, less, less_or_equal, signed_greater,
  signed_greater_or_equal, signed_less, signed_less_or_equal, invalid_register,
}
use aeneas2isabelle.Jit.Result.{Result, ok_or}

abbrev pub register_map : List X86Register
register_map = rax ∷ rsi ∷ rdx ∷ rcx ∷ r8 ∷ r9 ∷ rbx ∷ r12 ∷ r13 ∷ r14 ∷ r15 ∷ []

abbrev pub register_scratch : X86Register
register_scratch = r11

unfoldable pub mapped_register : ℕ → Result X86Register
mapped_register index = ok_or (get_elem? register_map index) invalid_register

-- The opcode of the register form, and the opcode extension of the immediate form.
unfoldable pub alu_encoding : AluOperation → ℕ × ℕ
alu_encoding add = (0x01, 0)
alu_encoding or = (0x09, 1)
alu_encoding and = (0x21, 4)
alu_encoding subtract = (0x29, 5)
alu_encoding xor = (0x31, 6)

unfoldable pub shift_opcode_extension : ShiftOperation → ℕ
shift_opcode_extension left = 4
shift_opcode_extension right = 5
shift_opcode_extension arithmetic_right = 7

unfoldable pub jump_opcode : JumpCondition → ℕ
jump_opcode equal = 0x84
jump_opcode not_equal = 0x85
jump_opcode greater = 0x87
jump_opcode greater_or_equal = 0x83
jump_opcode less = 0x82
jump_opcode less_or_equal = 0x86
jump_opcode signed_greater = 0x8f
jump_opcode signed_greater_or_equal = 0x8d
jump_opcode signed_less = 0x8c
jump_opcode signed_less_or_equal = 0x8e
