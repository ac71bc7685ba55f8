-- ===== src/X86/Decode/RoundTrip.antt =====
-- Decoding what `X86Instruction::encode` of casestudy/sbpf/src/safe_mode/x86.rs wrote.
use aeneas2isabelle.Prelude.{
  ℕ, ◌/◌, ◌<◌, ◌≡◌, Bool, some, List, ◌∷◌, ◌++◌, arith, bit, inl, inr, ◌==◌, if◌then◌else◌,
  Bool-cases, [],
}
use mathlib.Core.List.{append_assoc}
use aeneas2isabelle.Prelude.Int.{wrap}
use aeneas2isabelle.X86.Types.{X86Instruction}
use aeneas2isabelle.X86.Encode.{
  encode, size_bytes, is_s16, is_s64, emit_variable_length, high_bit, rex_bits, rex_prefix, escape,
  addressing, operand_bytes,
}
use aeneas2isabelle.X86.Decode.{Decoded, decode, decode_body}
use aeneas2isabelle.X86.Decode.Bytes.{
  IsOpcode, modulus, rex_bits-sum, take_half-size, take_rex-rex_prefix, take_opcode-escape,
  take_bytes-emit, from_le_bytes-emit,
}
use aeneas2isabelle.X86.Decode.Operands.{
  IsAccess, meant_operand, meant_reg, rex_bits-IsRex, take_operand-operand_bytes,
}

-- An instruction whose registers have four bits, whose opcode cannot be taken for a prefix, and
-- whose operand the formats can express.
pub record IsDecodable (i : X86Instruction) : Type 0 where
  pub first : i.first_operand < 16
  pub second : i.second_operand < 16
  pub opcode : IsOpcode i.opcode_escape_sequence i.opcode
  pub access : IsAccess i.modrm i.indirect i.second_operand

-- What the fields of an instruction mean, with an immediate cut to the size it is written in.
unfoldable pub meaning : X86Instruction → Decoded
meaning i = record {
  half = is_s16 i.size;
  wide = is_s64 i.size;
  escaped = i.opcode_escape_sequence == 1;
  opcode = i.opcode;
  reg = meant_reg i.modrm i.first_operand;
  operand = meant_operand i.modrm i.indirect i.second_operand;
  immediate = wrap (modulus i.immediate_size) i.immediate;
}

bit-lt : (b : Bool) → bit b < 2
bit-lt b = ground (arith, Bool-cases b)

rex_bits-lt : (w r x b : Bool) → rex_bits w r x b < 16
rex_bits-lt w r x b = ground (arith, rex_bits-sum w r x b, bit-lt w, bit-lt r, bit-lt x, bit-lt b)

rex_bits-wide : (w r x b : Bool) → (rex_bits w r x b / 8 == 1) ≡ w
rex_bits-wide w r x b = elim (Bool-cases w) [
  | inl e ↦ ground (arith, rex_bits-sum w r x b, bit-lt w, bit-lt r, bit-lt x, bit-lt b)
  | inr e ↦ ground (arith, rex_bits-sum w r x b, bit-lt w, bit-lt r, bit-lt x, bit-lt b)
]

rex_of : X86Instruction → ℕ
rex_of i =
    rex_bits (is_s64 i.size) (high_bit i.first_operand)
      (addressing i.modrm i.indirect i.second_operand).rex_x (high_bit i.second_operand)

-- The bytes behind the prefixes.
body_of : X86Instruction → List ℕ → List ℕ
body_of i rest =
    operand_bytes i.modrm i.first_operand (addressing i.modrm i.indirect i.second_operand)
    ++ (emit_variable_length i.immediate_size i.immediate ++ rest)

encode-append :
    (i : X86Instruction) (rest : List ℕ)
    → encode i ++ rest
      ≡ (if is_s16 i.size then 0x66 ∷ [] else [])
        ++ (rex_prefix (rex_of i) ++ (escape i.opcode_escape_sequence ++ i.opcode ∷ body_of i rest))
unfolding encode rex_of body_of
encode-append i rest = simp append_assoc

decode_body-lem :
    (i : X86Instruction) (rest : List ℕ)
    → IsDecodable i
    → decode_body i.modrm
        (size_bytes i.immediate_size)
        (is_s16 i.size)
        (rex_of i)
        (escape i.opcode_escape_sequence ++ i.opcode ∷ body_of i rest)
      ≡ some (meaning i, rest)
unfolding decode_body rex_of body_of meaning
decode_body-lem i rest h = rw (
  take_opcode-escape i.opcode_escape_sequence i.opcode (body_of i rest) h.opcode,
  take_operand-operand_bytes (rex_of i) i.first_operand i.second_operand i.modrm i.indirect
      (emit_variable_length i.immediate_size i.immediate ++ rest) h.first h.second h.access
      (rex_bits-IsRex (is_s64 i.size) (addressing i.modrm i.indirect i.second_operand).rex_x
        i.first_operand i.second_operand),
  take_bytes-emit i.immediate_size i.immediate rest,
  from_le_bytes-emit i.immediate_size i.immediate,
  rex_bits-wide (is_s64 i.size) (high_bit i.first_operand)
      (addressing i.modrm i.indirect i.second_operand).rex_x (high_bit i.second_operand),
)

-- An instruction with registers below 16, an opcode that is not a prefix, an escape sequence of at
-- most one byte and an expressible operand is decoded from its encoding: prefixes, opcode, register,
-- operand, displacement and the immediate cut to its size are what its fields say, and the bytes
-- that follow the encoding are left over.
pub decode-encode :
    (i : X86Instruction) (rest : List ℕ)
    → IsDecodable i
    → decode i.modrm (size_bytes i.immediate_size) (encode i ++ rest) ≡ some (meaning i, rest)
unfolding decode
decode-encode i rest h =
    let small : rex_of i < 16 = unfold rex_of in rex_bits-lt _ _ _ _ in
    rw
      (
        encode-append i rest,
        take_half-size i.size (rex_of i) i.opcode_escape_sequence i.opcode (body_of i rest) small
            h.opcode,
        take_rex-rex_prefix (rex_of i) i.opcode_escape_sequence i.opcode (body_of i rest) small
            h.opcode,
      )
      (decode_body-lem i rest h)
