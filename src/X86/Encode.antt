-- ===== src/X86/Encode.antt =====
-- casestudy/sbpf/src/safe_mode/x86.rs: `X86Instruction::encode` and `emit_variable_length`. The
-- mutable locals of `encode` that describe the operand are a record here, and the bytes pushed one
-- after another are concatenated. The `debug_assert`s are `encode_asserts`; a release build skips
-- them, and so does `encode`.
use aeneas2isabelle.Prelude.{
  ℕ, ◌*◌, ◌%◌, ◌^◌, Bool, true, false, not, ◌||◌, ◌&&◌, Option, none, some, List, [], ◌∷◌, ◌++◌,
  ◌==◌, if◌then◌else◌, bit, bit_and, bit_or,
}
use aeneas2isabelle.Prelude.Int.{ℤ, pos, negsuc, in_i8, wrap}
use aeneas2isabelle.Prelude.Words.{le_bytes}
use aeneas2isabelle.X86.Types.{
  OperandSize, s0, s8, s16, s32, s64, X86IndirectAccess, offset, offset_index_shift, X86Instruction,
  register_code,
}

-- The number of bytes that `emit_variable_length` writes for a size.
abbrev pub size_bytes : OperandSize → ℕ
size_bytes s0 = 0
size_bytes s8 = 1
size_bytes s16 = 2
size_bytes s32 = 4
size_bytes s64 = 8

-- `data` is a `u64`; the callers write `as u64`, which is `wrap` here.
unfoldable pub emit_variable_length : OperandSize → ℤ → List ℕ
emit_variable_length size z = le_bytes (size_bytes size) (wrap (2 ^ 64) z)

-- `x & 0b1000 != 0`.
unfoldable pub high_bit : ℕ → Bool
high_bit x = not (bit_and x 8 == 0)

-- The locals `modrm.mode`, `modrm.m`, `rex.x`, `sib`, `displacement_size` and `displacement`.
pub record Addressing : Type 0 where
  pub mode : ℕ
  pub m : ℕ
  pub rex_x : Bool
  pub scale : ℕ
  pub index : ℕ
  pub base : ℕ
  pub displacement_size : OperandSize
  pub displacement : ℤ

abbrev pub no_addressing : ℕ → Addressing
no_addressing second = record {
  mode = 0;
  m = bit_and second 7;
  rex_x = false;
  scale = 0;
  index = 0;
  base = 0;
  displacement_size = s0;
  displacement = pos 0;
}

is_zero : ℤ → Bool
is_zero (pos n) = n == 0
is_zero (negsuc n) = false

-- The `if self.modrm { match self.indirect ... }` of the source.
unfoldable pub addressing : Bool → Option X86IndirectAccess → ℕ → Addressing
unfolding high_bit is_zero
addressing false _ second = no_addressing second
addressing true none second = record (no_addressing second) { mode = 3 }
addressing true (some (offset z)) second =
    let short = in_i8 z || (is_zero z && (bit_and second 7 == 5)) in
    record (no_addressing second) {
      mode = if short then 1 else 2;
      displacement_size = if short then s8 else s32;
      displacement = z;
    }
addressing true (some (offset_index_shift z index shift)) second = record (no_addressing second) {
  mode = if in_i8 z then 1 else 2;
  m = 4;
  rex_x = high_bit (register_code index);
  scale = bit_and shift 3;
  index = bit_and (register_code index) 7;
  base = bit_and second 7;
  displacement_size = if in_i8 z then s8 else s32;
  displacement = z;
}

abbrev pub is_s16 : OperandSize → Bool
is_s16 s16 = true
is_s16 _ = false

abbrev pub is_s64 : OperandSize → Bool
is_s64 s64 = true
is_s64 _ = false

-- `(w << 3) | (r << 2) | (x << 1) | b`.
unfoldable pub rex_bits : Bool → Bool → Bool → Bool → ℕ
rex_bits w r x b = bit_or (bit_or (bit_or (bit w * 8) (bit r * 4)) (bit x * 2)) (bit b)

-- `(high << 6) | (middle << 3) | low` on `u8`, which both the ModR/M and the SIB byte are.
unfoldable pub three_fields : ℕ → ℕ → ℕ → ℕ
three_fields high middle low = bit_or (bit_or (high * 64 % 256) (middle * 8 % 256)) low

unfoldable pub rex_prefix : ℕ → List ℕ
rex_prefix bits = if bits == 0 then [] else bit_or 0x40 bits ∷ []

-- `match self.opcode_escape_sequence`; the two-byte sequences go through `to_le_bytes` of a `u16`.
unfoldable pub escape : ℕ → List ℕ
escape n =
    if n == 1
    then 0x0f ∷ []
    else if n == 2
    then le_bytes 2 0x0f38
    else if n == 3
    then le_bytes 2 0x0f3a
    else []

unfoldable pub sib_bytes : Addressing → List ℕ
unfolding three_fields
sib_bytes a = let sib = three_fields a.scale a.index a.base in if sib == 0 then [] else sib ∷ []

-- The second `if self.modrm` of the source.
unfoldable pub operand_bytes : Bool → ℕ → Addressing → List ℕ
unfolding sib_bytes emit_variable_length
operand_bytes false first a = []
operand_bytes true first a =
    three_fields a.mode (bit_and first 7) a.m
    ∷ (sib_bytes a ++ emit_variable_length a.displacement_size a.displacement)

unfoldable pub encode : X86Instruction → List ℕ
unfolding rex_bits rex_prefix escape operand_bytes emit_variable_length high_bit addressing
encode i =
    let a = addressing i.modrm i.indirect i.second_operand in
    let rex =
      rex_bits (is_s64 i.size) (high_bit i.first_operand) a.rex_x (high_bit i.second_operand) in
    (if is_s16 i.size then 0x66 ∷ [] else [])
    ++ (rex_prefix rex
        ++ (escape i.opcode_escape_sequence
            ++ (i.opcode
                ∷ (operand_bytes i.modrm i.first_operand a
                    ++ emit_variable_length i.immediate_size i.immediate))))

-- The conditions of the `debug_assert`s of `encode`.
is_s0 : OperandSize → Bool
is_s0 s0 = true
is_s0 _ = false

base_asserts : Bool → Option X86IndirectAccess → ℕ → Bool
base_asserts true (some (offset z)) second = not (bit_and second 7 == 4)
base_asserts _ _ second = true

unfoldable pub encode_asserts : X86Instruction → Bool
unfolding is_s0 base_asserts
encode_asserts i = not (is_s0 i.size) && base_asserts i.modrm i.indirect i.second_operand
