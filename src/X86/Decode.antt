-- ===== src/X86/Decode.antt =====
-- A decoder for the instruction formats that casestudy/sbpf/src/safe_mode/x86.rs encodes, written
-- from the x86-64 instruction format: legacy prefix, REX, escape, opcode, ModR/M, SIB,
-- displacement and immediate. It is independent of `encode`.
pub mod Bytes
pub mod Operands
pub mod RoundTrip
use aeneas2isabelle.Prelude.{
  ℕ, zero, suc, ◌+◌, ◌*◌, ◌/◌, ◌%◌, ◌-◌, ◌^◌, Bool, true, false, ◌&&◌, Option, none, some, List, [],
  ◌∷◌, leb, ◌==◌, if◌then◌else◌,
}
use aeneas2isabelle.Prelude.Int.{ℤ, to_signed}
use aeneas2isabelle.Prelude.Words.{from_le_bytes}

-- A register number has four bits; `implied` keeps the bit that REX.B adds to the opcode.
pub data Operand : Type 0 where
  implied : ℕ → Operand
  register : ℕ → Operand
  memory : ℕ → ℤ → Operand
  -- base, index, scale, displacement
  indexed : ℕ → ℕ → ℕ → ℤ → Operand

pub record Decoded : Type 0 where
  pub half : Bool
  pub wide : Bool
  pub escaped : Bool
  pub opcode : ℕ
  pub reg : ℕ
  pub operand : Operand
  pub immediate : ℕ

infixl 5 ◌>>=◌
abbrev pub ◌>>=◌ {ℓ κ} : {A : Type ℓ} {B : Type κ} → Option A → (A → Option B) → Option B
none >>= f = none
some a >>= f = f a

-- The operand-size prefix.
unfoldable pub take_half : List ℕ → Bool × List ℕ
take_half [] = (false, [])
take_half (b ∷ bs) = if b == 0x66 then (true, bs) else (false, b ∷ bs)

-- The four bits of a REX prefix, 0 where there is none.
unfoldable pub take_rex : List ℕ → ℕ × List ℕ
take_rex [] = (0, [])
take_rex (b ∷ bs) = if leb 0x40 b && leb b 0x4f then (b - 0x40, bs) else (0, b ∷ bs)

take_escaped : List ℕ → Option (Bool × ℕ × List ℕ)
take_escaped [] = none
take_escaped (b ∷ bs) = some (true, b, bs)

unfoldable pub take_opcode : List ℕ → Option (Bool × ℕ × List ℕ)
unfolding take_escaped
take_opcode [] = none
take_opcode (b ∷ bs) = if b == 0x0f then take_escaped bs else some (false, b, bs)

unfoldable pub take_bytes : ℕ → List ℕ → Option (List ℕ × List ℕ)
take_bytes zero bs = some ([], bs)
take_bytes (suc n) [] = none
take_bytes (suc n) (b ∷ bs) = take_bytes n bs >>= λ (taken, rest). some (b ∷ taken, rest)

-- A displacement of one or four bytes, by the mode; the encoder uses no other mode for memory.
unfoldable pub take_displacement : ℕ → List ℕ → Option (ℤ × List ℕ)
take_displacement mode bs =
    if mode == 1
    then (take_bytes 1 bs >>= λ (d, rest). some (to_signed (2 ^ 7) (2 ^ 8) (from_le_bytes d), rest))
    else if mode == 2
    then (take_bytes 4 bs >>= λ (d, rest).
        some (to_signed (2 ^ 31) (2 ^ 32) (from_le_bytes d), rest))
    else none

-- An index of 4 without REX.X stands for no index.
unfoldable pub memory_at : ℕ → ℕ → ℕ → ℤ → Operand
memory_at base index scale d = if index == 4 then memory base d else indexed base index scale d

unfoldable pub take_sib : ℕ → ℕ → List ℕ → Option (Operand × List ℕ)
unfolding memory_at
take_sib rex mode [] = none
take_sib rex mode (sib ∷ bs) = take_displacement mode bs >>= λ (d, rest).
    some (memory_at (sib % 8 + rex % 2 * 8) (sib / 8 % 8 + rex / 2 % 2 * 8) (sib / 64) d, rest)

-- The operand that a ModR/M byte begins.
unfoldable pub take_rm : ℕ → ℕ → ℕ → List ℕ → Option (Operand × List ℕ)
take_rm rex mode rm bs =
    if mode == 3
    then some (register (rm + rex % 2 * 8), bs)
    else if rm == 4
    then take_sib rex mode bs
    else take_displacement mode bs >>= λ (d, rest). some (memory (rm + rex % 2 * 8) d, rest)

unfoldable pub take_operand : Bool → ℕ → List ℕ → Option (ℕ × Operand × List ℕ)
take_operand false rex bs = some (rex / 4 % 2 * 8, implied (rex % 2), bs)
take_operand true rex [] = none
take_operand true rex (b ∷ bs) = take_rm rex (b / 64) (b % 8) bs >>= λ (operand, rest).
    some (b / 8 % 8 + rex / 4 % 2 * 8, operand, rest)

-- The bytes after the REX prefix.
unfoldable pub decode_body : Bool → ℕ → Bool → ℕ → List ℕ → Option (Decoded × List ℕ)
decode_body has_modrm n half rex bs = take_opcode bs >>= λ (escaped, opcode, bs₁).
    take_operand has_modrm rex bs₁ >>= λ (reg, operand, bs₂).
    take_bytes n bs₂ >>= λ (immediate, bs₃). some (
      record {
        half = half;
        wide = rex / 8 == 1;
        escaped = escaped;
        opcode = opcode;
        reg = reg;
        operand = operand;
        immediate = from_le_bytes immediate;
      },
      bs₃,
    )

-- Whether there is a ModR/M byte and how many bytes the immediate has is what the opcode says.
unfoldable pub decode : Bool → ℕ → List ℕ → Option (Decoded × List ℕ)
unfolding decode_body
decode has_modrm n bs =
    let (half, bs₁) = take_half bs in
    let (rex, bs₂) = take_rex bs₁ in decode_body has_modrm n half rex bs₂
