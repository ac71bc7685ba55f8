-- ===== src/X86/Decode/Operands.antt =====
-- The operand part of an instruction, ModR/M, SIB and displacement, as `encode` writes it and the
-- decoder reads it.
use aeneas2isabelle.Prelude.{
  ℕ, zero, suc, inl, inr, ◌+◌, ◌*◌, ◌/◌, ◌%◌, ◌<◌, ◌≡◌, ◌≢◌, refl, Bool, true, false, Option, none,
  some, List, ◌∷◌, ◌++◌, ◌∙◌, arith, bit, bit_and, bit_or, ◌==◌, if◌then◌else◌, Bool-cases,
}
use aeneas2isabelle.Prelude.Int.{ℤ, pos, negsuc, in_i8, IsI32}
use aeneas2isabelle.Prelude.Bits.{bit_or_fields, bit_and_seven, bit_and_three}
use aeneas2isabelle.Prelude.Words.{le_bytes}
use aeneas2isabelle.X86.Types.{
  s8, s32, X86Register, X86IndirectAccess, offset, offset_index_shift, register_code,
}
use aeneas2isabelle.X86.Encode.{
  emit_variable_length, high_bit, rex_bits, addressing, operand_bytes, three_fields, sib_bytes,
  Addressing, no_addressing,
}
use aeneas2isabelle.X86.Decode.{
  Operand, implied, register, memory, indexed, take_rm, take_sib, take_operand, take_displacement,
  memory_at,
}
use aeneas2isabelle.X86.Decode.Bytes.{bit-high_bit, rex_bits-sum, take_displacement-emit}

-- The operands that the formats can express: a base in memory without an index is none of the
-- registers whose code means that a SIB byte follows, an index is not the code that means that
-- there is none, and the SIB byte is not zero.
abbrev pub IsAccess : Bool → Option X86IndirectAccess → ℕ → Type 0
IsAccess false access second = Unit
IsAccess true none second = Unit
IsAccess true (some (offset z)) second = (second % 8 ≢ 4) × IsI32 z
IsAccess true (some (offset_index_shift z index shift)) second =
    (register_code index < 16)
    × (register_code index ≢ 4)
    × (shift % 4 + register_code index % 8 + second % 8 ≢ 0)
    × IsI32 z

-- The operand that the fields of an instruction describe.
unfoldable pub meant_operand : Bool → Option X86IndirectAccess → ℕ → Operand
meant_operand false access second = implied (second / 8 % 2)
meant_operand true none second = register second
meant_operand true (some (offset z)) second = memory second z
meant_operand true (some (offset_index_shift z index shift)) second =
    indexed second (register_code index) (shift % 4) z

unfoldable pub meant_reg : Bool → ℕ → ℕ
meant_reg false first = first / 8 % 2 * 8
meant_reg true first = first

-- The REX bits of the operands, whatever the wide bit is.
pub record IsRex (rex first second : ℕ) (x : Bool) : Type 0 where
  pub r_bit : rex / 4 % 2 ≡ first / 8 % 2
  pub x_bit : rex / 2 % 2 ≡ bit x
  pub b_bit : rex % 2 ≡ second / 8 % 2

pub rex_bits-IsRex :
    (w x : Bool) (first second : ℕ)
    → IsRex (rex_bits w (high_bit first) x (high_bit second)) first second x
rex_bits-IsRex w x first second = record {
  r_bit = ground (
    arith,
    rex_bits-sum w (high_bit first) x (high_bit second),
    bit-high_bit first,
    bit-high_bit second,
  );
  x_bit = ground (
    arith,
    rex_bits-sum w (high_bit first) x (high_bit second),
    bit-high_bit first,
    bit-high_bit second,
  );
  b_bit = ground (
    arith,
    rex_bits-sum w (high_bit first) x (high_bit second),
    bit-high_bit first,
    bit-high_bit second,
  );
}

-- A ModR/M byte comes apart into its fields.
take_operand-modrm :
    (rex first mode m : ℕ) (bs rest : List ℕ) (operand : Operand)
    → first < 16
    → rex / 4 % 2 ≡ first / 8 % 2
    → mode < 4
    → m < 8
    → take_rm rex mode m bs ≡ some (operand, rest)
    → take_operand true rex (three_fields mode (bit_and first 7) m ∷ bs)
      ≡ some (first, operand, rest)
unfolding take_operand three_fields
take_operand-modrm rex first mode m bs rest operand f r p q h =
    let byte : bit_or (bit_or (mode * 64 % 256) (bit_and first 7 * 8 % 256)) m
        ≡ mode * 64 + first % 8 * 8 + m =
      rw (bit_and_seven first, bit_or_fields mode (first % 8) m p (omega arith) q) in
    let high : (mode * 64 + first % 8 * 8 + m) / 64 ≡ mode = omega arith in
    let low : (mode * 64 + first % 8 * 8 + m) % 8 ≡ m = omega arith in
    let middle : (mode * 64 + first % 8 * 8 + m) / 8 % 8 + rex / 4 % 2 * 8 ≡ first = omega arith in
    rw (byte, high, low, h, middle)

-- A base in memory without an index.
take_rm-memory :
    (rex mode second : ℕ) (z : ℤ) (bs rest : List ℕ)
    → second < 16
    → rex % 2 ≡ second / 8 % 2
    → second % 8 ≢ 4
    → (mode == 3) ≡ false
    → take_displacement mode bs ≡ some (z, rest)
    → take_rm rex mode (second % 8) bs ≡ some (memory second z, rest)
unfolding take_rm
take_rm-memory rex mode second z bs rest s b n m h =
    let base : second % 8 + rex % 2 * 8 ≡ second = omega arith in
    let plain : (second % 8 == 4) ≡ false = ground (arith, n) in rw (m, plain, h, base)

-- A base with an index, behind a SIB byte.
take_rm-indexed :
    (rex mode index base scale : ℕ) (z : ℤ) (bs rest : List ℕ)
    → index < 16
    → index ≢ 4
    → base < 16
    → scale < 4
    → rex / 2 % 2 ≡ index / 8 % 2
    → rex % 2 ≡ base / 8 % 2
    → (mode == 3) ≡ false
    → take_displacement mode bs ≡ some (z, rest)
    → take_rm rex mode 4 (three_fields scale (index % 8) (base % 8) ∷ bs)
      ≡ some (indexed base index scale z, rest)
unfolding take_rm take_sib three_fields memory_at
take_rm-indexed rex mode index base scale z bs rest i n b s x r m h =
    let sib : bit_or (bit_or (scale * 64 % 256) (index % 8 * 8 % 256)) (base % 8)
        ≡ scale * 64 + index % 8 * 8 + base % 8 =
      bit_or_fields scale (index % 8) (base % 8) s (omega arith) (omega arith) in
    let shift : (scale * 64 + index % 8 * 8 + base % 8) / 64 ≡ scale = omega arith in
    let low : (scale * 64 + index % 8 * 8 + base % 8) % 8 + rex % 2 * 8 ≡ base = omega arith in
    let middle : (scale * 64 + index % 8 * 8 + base % 8) / 8 % 8 + rex / 2 % 2 * 8 ≡ index =
      omega arith in
    let present : (index == 4) ≡ false = ground (arith, n) in
    rw (m, sib, h, shift, low, middle, present)

modes : (z : ℤ) → ((if in_i8 z then 1 else 2) == 3) ≡ false
modes z = ground (arith, Bool-cases (in_i8 z))

not_zero : (n : ℕ) → (suc n == 0) ≡ false
not_zero n = ground arith

mode_small : (z : ℤ) → (if in_i8 z then 1 else 2) < 4
mode_small z = ground (arith, Bool-cases (in_i8 z))

memory_form : ℕ → ℤ → Addressing
memory_form second z = record (no_addressing second) {
  mode = if in_i8 z then 1 else 2;
  displacement_size = if in_i8 z then s8 else s32;
  displacement = z;
}

-- A displacement of 0 is short already, so that the source's other test for it decides nothing.
addressing-offset :
    (second : ℕ) (z : ℤ) → addressing true (some (offset z)) second ≡ memory_form second z
unfolding addressing memory_form
addressing-offset second (pos zero) = refl
addressing-offset second (pos (suc n)) = elim (Bool-cases (in_i8 (pos (suc n)))) [
  | inl short ↦ rw short
  | inr long ↦ rw (long, not_zero n)
]
addressing-offset second (negsuc n) = elim (Bool-cases (in_i8 (negsuc n))) [
  | inl short ↦ rw short
  | inr long ↦ rw long
]

take_operand-register :
    (rex first second : ℕ) (tail : List ℕ)
    → first < 16
    → second < 16
    → rex / 4 % 2 ≡ first / 8 % 2
    → rex % 2 ≡ second / 8 % 2
    → take_operand true rex (operand_bytes true first (addressing true none second) ++ tail)
      ≡ some (first, register second, tail)
unfolding operand_bytes addressing sib_bytes emit_variable_length le_bytes three_fields
take_operand-register rex first second tail f s r b =
    let base : second % 8 + rex % 2 * 8 ≡ second = omega arith in
    let rm : take_rm rex 3 (second % 8) tail ≡ some (register second, tail) =
      unfold take_rm in rw base in
    rw (bit_and_seven second) (
      take_operand-modrm rex first 3 (second % 8) tail tail (register second) f r (omega arith)
        (omega arith) rm)

take_operand-memory :
    (rex first second : ℕ) (z : ℤ) (tail : List ℕ)
    → first < 16
    → second < 16
    → second % 8 ≢ 4
    → IsI32 z
    → rex / 4 % 2 ≡ first / 8 % 2
    → rex % 2 ≡ second / 8 % 2
    → take_operand true rex (operand_bytes true first (memory_form second z) ++ tail)
      ≡ some (first, memory second z, tail)
unfolding operand_bytes memory_form sib_bytes three_fields
take_operand-memory rex first second z tail f s n h r b = rw (bit_and_seven second) (
    take_operand-modrm rex first (if in_i8 z then 1 else 2) (second % 8) _ tail (memory second z) f
      r (mode_small z) (omega arith)
      (take_rm-memory rex (if in_i8 z then 1 else 2) second z _ tail s b n (modes z)
        (take_displacement-emit z tail h)))

take_operand-indexed :
    (rex first second shift : ℕ) (index : X86Register) (z : ℤ) (tail : List ℕ)
    → first < 16
    → second < 16
    → IsAccess true (some (offset_index_shift z index shift)) second
    → IsRex rex first second (high_bit (register_code index))
    → take_operand true rex (
        operand_bytes true first (addressing true (some (offset_index_shift z index shift)) second)
        ++ tail)
      ≡ some (first, indexed second (register_code index) (shift % 4) z, tail)
unfolding operand_bytes addressing sib_bytes
take_operand-indexed rex first second shift index z tail f s h r =
    let fields : three_fields (shift % 4) (register_code index % 8) (second % 8)
        ≡ (shift % 4) * 64 + (register_code index % 8) * 8 + second % 8 =
      unfold three_fields in
      bit_or_fields (shift % 4) (register_code index % 8) (second % 8) (omega arith) (omega arith)
        (omega arith) in
    let kept : (three_fields (shift % 4) (register_code index % 8) (second % 8) == 0) ≡ false =
      ground (arith, h.2) in
    let x : rex / 2 % 2 ≡ register_code index / 8 % 2 =
      r.x_bit ∙ bit-high_bit (register_code index) in
    rw (bit_and_seven second, bit_and_seven (register_code index), bit_and_three shift, kept)
      (take_operand-modrm rex first (if in_i8 z then 1 else 2) 4 _ tail
        (indexed second (register_code index) (shift % 4) z) f r.r_bit (mode_small z) (omega arith)
        (take_rm-indexed rex (if in_i8 z then 1 else 2) (register_code index) second (shift % 4) z _
          tail h.0 h.1 s (omega arith) x r.b_bit (modes z) (take_displacement-emit z tail h.3)))

-- The operand bytes of an expressible operand are read back, and no byte more.
pub take_operand-operand_bytes :
    (rex first second : ℕ) (modrm : Bool) (access : Option X86IndirectAccess) (tail : List ℕ)
    → first < 16
    → second < 16
    → IsAccess modrm access second
    → IsRex rex first second (addressing modrm access second).rex_x
    → take_operand modrm rex (operand_bytes modrm first (addressing modrm access second) ++ tail)
      ≡ some (meant_reg modrm first, meant_operand modrm access second, tail)
unfolding meant_reg meant_operand
take_operand-operand_bytes rex first second false access tail f s h r =
    unfold take_operand operand_bytes in rw (r.r_bit, r.b_bit)
take_operand-operand_bytes rex first second true none tail f s h r =
    take_operand-register rex first second tail f s r.r_bit r.b_bit
take_operand-operand_bytes rex first second true (some (offset z)) tail f s h r =
    rw (addressing-offset second z)
      (take_operand-memory rex first second z tail f s h.0 h.1 r.r_bit r.b_bit)
take_operand-operand_bytes rex first second true (some (offset_index_shift z index shift)) tail f s
      h r =
    take_operand-indexed rex first second shift index z tail f s h (unfold addressing in r)
