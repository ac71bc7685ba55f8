-- ===== src/X86/Decode/Bytes.antt =====
-- What the parts of `encode` write, and what the parts of the decoder make of it.
use aeneas2isabelle.Prelude.{
  ℕ, zero, suc, ◌+◌, ◌*◌, ◌/◌, ◌%◌, ◌^◌, ◌<◌, ◌≡◌, ◌≢◌, ◌⊎◌, inl, inr, refl, sym, ap, ◌∙◌, Bool,
  true, false, some, List, [], ◌∷◌, ◌++◌, arith, length, bit, bit_or, ◌==◌, ==_iff, all_below,
  all_below_lem, if◌then◌else◌, Bool-cases,
}
use aeneas2isabelle.Prelude.Int.{ℤ, pos, negsuc, wrap, to_signed, in_i8, IsI32}
use aeneas2isabelle.Prelude.Bits.{bit_and_eight}
use aeneas2isabelle.Prelude.Words.{le_bytes, from_le_bytes, length-le_bytes}
use aeneas2isabelle.X86.Types.{OperandSize, s0, s8, s16, s32, s64}
use aeneas2isabelle.X86.Encode.{
  emit_variable_length, size_bytes, high_bit, rex_bits, rex_prefix, escape, is_s16,
}
use aeneas2isabelle.X86.Decode.{take_half, take_rex, take_opcode, take_bytes, take_displacement}

pub bit-high_bit : (x : ℕ) → bit (high_bit x) ≡ x / 8 % 2
unfolding high_bit
bit-high_bit x = ground (arith, bit_and_eight x)

pub rex_bits-sum : (w r x b : Bool) → rex_bits w r x b ≡ bit w * 8 + bit r * 4 + bit x * 2 + bit b
unfolding rex_bits
rex_bits-sum true true true true = refl
rex_bits-sum true true true false = refl
rex_bits-sum true true false true = refl
rex_bits-sum true true false false = refl
rex_bits-sum true false true true = refl
rex_bits-sum true false true false = refl
rex_bits-sum true false false true = refl
rex_bits-sum true false false false = refl
rex_bits-sum false true true true = refl
rex_bits-sum false true true false = refl
rex_bits-sum false true false true = refl
rex_bits-sum false true false false = refl
rex_bits-sum false false true true = refl
rex_bits-sum false false true false = refl
rex_bits-sum false false false true = refl
rex_bits-sum false false false false = refl

rex_table : all_below 16 (λ n. bit_or 0x40 n == 0x40 + n) ≡ true
unfolding all_below
rex_table = refl

rex_byte : (n : ℕ) → n < 16 → bit_or 0x40 n ≡ 0x40 + n
rex_byte n h = (==_iff _ _).0 (all_below_lem 16 (λ n. bit_or 0x40 n == 0x40 + n) n h rex_table)

-- A byte that begins neither a prefix nor an escape.
pub record IsPlain (b : ℕ) : Type 0 where
  pub not_half : b ≢ 0x66
  pub not_escape : b ≢ 0x0f
  pub not_rex : (b < 0x40) ⊎ (0x4f < b)

-- The escape sequences that the decoder knows, with the opcodes that can stand behind them.
abbrev pub IsOpcode : ℕ → ℕ → Type 0
IsOpcode zero opcode = IsPlain opcode
IsOpcode (suc zero) opcode = Unit
IsOpcode (suc (suc n)) opcode = ⊥

pub take_opcode-escape :
    (e opcode : ℕ) (rest : List ℕ)
    → IsOpcode e opcode
    → take_opcode (escape e ++ opcode ∷ rest) ≡ some (e == 1, opcode, rest)
unfolding take_opcode escape
take_opcode-escape zero opcode rest h = ground (arith, h.not_escape)
take_opcode-escape (suc zero) opcode rest h = refl
take_opcode-escape (suc (suc n)) opcode rest h = absurd h

-- With no REX prefix the next byte is not taken for one, nor for an operand-size prefix.
pub take_rex-escape :
    (e opcode : ℕ) (rest : List ℕ)
    → IsOpcode e opcode
    → take_rex (escape e ++ opcode ∷ rest) ≡ (0, escape e ++ opcode ∷ rest)
unfolding take_rex escape
take_rex-escape zero opcode rest h = ground (arith, h.not_rex)
take_rex-escape (suc zero) opcode rest h = refl
take_rex-escape (suc (suc n)) opcode rest h = absurd h

pub take_rex-rex_prefix :
    (rex e opcode : ℕ) (rest : List ℕ)
    → rex < 16
    → IsOpcode e opcode
    → take_rex (rex_prefix rex ++ (escape e ++ opcode ∷ rest)) ≡ (rex, escape e ++ opcode ∷ rest)
unfolding rex_prefix
take_rex-rex_prefix zero e opcode rest h k = take_rex-escape e opcode rest k
take_rex-rex_prefix (suc n) e opcode rest h k = unfold take_rex in ground (arith, rex_byte (suc n))

take_half-escape :
    (e opcode : ℕ) (rest : List ℕ)
    → IsOpcode e opcode
    → take_half (escape e ++ opcode ∷ rest) ≡ (false, escape e ++ opcode ∷ rest)
unfolding take_half escape
take_half-escape zero opcode rest h = ground (arith, h.not_half)
take_half-escape (suc zero) opcode rest h = refl
take_half-escape (suc (suc n)) opcode rest h = absurd h

take_half-rex_prefix :
    (rex e opcode : ℕ) (rest : List ℕ)
    → rex < 16
    → IsOpcode e opcode
    → take_half (rex_prefix rex ++ (escape e ++ opcode ∷ rest))
      ≡ (false, rex_prefix rex ++ (escape e ++ opcode ∷ rest))
unfolding rex_prefix
take_half-rex_prefix zero e opcode rest h k = take_half-escape e opcode rest k
take_half-rex_prefix (suc n) e opcode rest h k =
    unfold take_half in ground (arith, rex_byte (suc n))

pub take_half-size :
    (size : OperandSize) (rex e opcode : ℕ) (rest : List ℕ)
    → rex < 16
    → IsOpcode e opcode
    → take_half
        ((if is_s16 size then 0x66 ∷ [] else []) ++ (rex_prefix rex ++ (escape e ++ opcode ∷ rest)))
      ≡ (is_s16 size, rex_prefix rex ++ (escape e ++ opcode ∷ rest))
take_half-size s0 rex e opcode rest h k = take_half-rex_prefix rex e opcode rest h k
take_half-size s8 rex e opcode rest h k = take_half-rex_prefix rex e opcode rest h k
take_half-size s16 rex e opcode rest h k = unfold take_half in refl
take_half-size s32 rex e opcode rest h k = take_half-rex_prefix rex e opcode rest h k
take_half-size s64 rex e opcode rest h k = take_half-rex_prefix rex e opcode rest h k

pub take_bytes-append :
    (bytes rest : List ℕ) → take_bytes (length bytes) (bytes ++ rest) ≡ some (bytes, rest)
unfolding take_bytes
take_bytes-append [] rest = refl
take_bytes-append (b ∷ bytes) rest = rw (take_bytes-append bytes rest)

-- The number of values of an operand size.
abbrev pub modulus : OperandSize → ℕ
modulus s0 = 1
modulus s8 = 2 ^ 8
modulus s16 = 2 ^ 16
modulus s32 = 2 ^ 32
modulus s64 = 2 ^ 64

pub from_le_bytes-emit :
    (size : OperandSize) (z : ℤ)
    → from_le_bytes (emit_variable_length size z) ≡ wrap (modulus size) z
unfolding from_le_bytes emit_variable_length le_bytes
from_le_bytes-emit s0 (pos n) = omega arith
from_le_bytes-emit s0 (negsuc n) = omega arith
from_le_bytes-emit s8 (pos n) = omega arith
from_le_bytes-emit s8 (negsuc n) = omega arith
from_le_bytes-emit s16 (pos n) = omega arith
from_le_bytes-emit s16 (negsuc n) = omega arith
from_le_bytes-emit s32 (pos n) = omega arith
from_le_bytes-emit s32 (negsuc n) = omega arith
from_le_bytes-emit s64 (pos n) = omega arith
from_le_bytes-emit s64 (negsuc n) = omega arith

length-emit : (size : OperandSize) (z : ℤ) → length (emit_variable_length size z) ≡ size_bytes size
unfolding emit_variable_length
length-emit size z = length-le_bytes (size_bytes size) (wrap (2 ^ 64) z)

pub take_bytes-emit :
    (size : OperandSize) (z : ℤ) (rest : List ℕ)
    → take_bytes (size_bytes size) (emit_variable_length size z ++ rest)
      ≡ some (emit_variable_length size z, rest)
take_bytes-emit size z rest =
    ap (λ (n : ℕ). take_bytes n (emit_variable_length size z ++ rest)) (sym (length-emit size z))
    ∙ take_bytes-append (emit_variable_length size z) rest

signed8 : (z : ℤ) → in_i8 z ≡ true → to_signed (2 ^ 7) (2 ^ 8) (wrap (2 ^ 8) z) ≡ z
signed8 (pos n) h = ground arith
signed8 (negsuc n) h = ground arith

signed32 : (z : ℤ) → IsI32 z → to_signed (2 ^ 31) (2 ^ 32) (wrap (2 ^ 32) z) ≡ z
signed32 (pos n) h = ground arith
signed32 (negsuc n) h = ground arith

-- The decoder reads back a displacement in the form that the encoder chooses.
pub take_displacement-emit :
    (z : ℤ) (rest : List ℕ)
    → IsI32 z
    → take_displacement
        (if in_i8 z then 1 else 2)
        (emit_variable_length (if in_i8 z then s8 else s32) z ++ rest)
      ≡ some (z, rest)
unfolding take_displacement
take_displacement-emit z rest h = elim (Bool-cases (in_i8 z)) [
  | inl short ↦ rw (short, take_bytes-emit s8 z rest, from_le_bytes-emit s8 z, signed8 z short)
  | inr long ↦ rw (long, take_bytes-emit s32 z rest, from_le_bytes-emit s32 z, signed32 z h)
]
