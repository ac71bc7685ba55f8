-- ===== src/Prelude/Bits.antt =====
-- Masks as arithmetic, at every number.
use Prim.Native.Nat.{
  ℕ, zero, suc, ◌+◌, ◌*◌, ◌/◌, ◌%◌, ◌^◌, ◌≤◌, ◌<◌, min, bit_and, bit_or, digits, bit_and-bitwise,
}
use aeneas2isabelle.Prelude.Tests.{◌==◌, ==_iff, all_below, all_below_lem}
use mathlib.Core.Path.{◌≡◌, refl, ap, ◌∙◌}
use mathlib.Core.Bool.{true}
use native.Mathlib.Decide.{dec_le}
use native.Mathlib.Omega.{arith}

-- The recursion that `bit_and` stands for, with any fuel that covers its first argument.
masked : ℕ → ℕ → ℕ → ℕ
masked fuel = digits (λ y. 0) min fuel

-- One more unit of fuel changes nothing once the first argument is covered.
masked-suc : (fuel a b : ℕ) → a ≤ fuel → masked (suc fuel) a b ≡ masked fuel a b
unfolding masked
masked-suc zero zero b h = refl
masked-suc zero (suc a) b h = absurd (omega arith)
masked-suc (suc fuel) zero b h = refl
masked-suc (suc fuel) (suc a) b h = omega (arith, masked-suc fuel (suc a / 2) (b / 2))

masked_least : (fuel a b : ℕ) → a ≤ fuel → masked fuel a b ≡ masked a a b
masked_least zero zero b h = refl
masked_least zero (suc a) b h = absurd (omega arith)
masked_least (suc fuel) a b h = elim (dec_le a fuel) [
  | yes p ↦ masked-suc fuel a b p ∙ masked_least fuel a b p
  | no p ↦ let e : suc fuel ≡ a = omega arith in ap (λ (k : ℕ). masked k a b) e
]

bit_and-masked : (a b : ℕ) → bit_and a b ≡ masked a a b
unfolding masked
bit_and-masked a b = bit_and-bitwise a b

-- The lowest bit of a masked number, and the others.
pub bit_and-halves : (a b : ℕ) → bit_and a b ≡ min (a % 2) (b % 2) + 2 * bit_and (a / 2) (b / 2)
unfolding masked
bit_and-halves zero b = omega (arith, bit_and-masked 0 b, bit_and-masked 0 (b / 2))
bit_and-halves (suc a) b = omega (
  arith,
  bit_and-masked (suc a) b,
  bit_and-masked (suc a / 2) (b / 2),
  masked_least a (suc a / 2) (b / 2),
)

bit_and-zero : (fuel a : ℕ) → a ≤ fuel → bit_and a 0 ≡ 0
bit_and-zero fuel zero h = refl
bit_and-zero zero (suc a) h = absurd (omega arith)
bit_and-zero (suc fuel) (suc a) h =
    omega (arith, bit_and-halves (suc a) 0, bit_and-zero fuel (suc a / 2))

bit_and-odd : (a b : ℕ) → bit_and a (b * 2 + 1) ≡ bit_and (a / 2) b * 2 + a % 2
bit_and-odd a b = ground (arith, bit_and-halves a (b * 2 + 1))

bit_and-even : (a b : ℕ) → bit_and a (b * 2) ≡ bit_and (a / 2) b * 2
bit_and-even a b = ground (arith, bit_and-halves a (b * 2))

bit_and-even4 : (a b : ℕ) → bit_and a (b * 16) ≡ bit_and (a / 16) b * 16
bit_and-even4 a b = ground (
  arith,
  bit_and-even a (b * 8),
  bit_and-even (a / 2) (b * 4),
  bit_and-even (a / 2 / 2) (b * 2),
  bit_and-even (a / 2 / 2 / 2) b,
)

bit_and-even8 : (a b : ℕ) → bit_and a (b * 256) ≡ bit_and (a / 256) b * 256
bit_and-even8 a b = ground (arith, bit_and-even4 a (b * 16), bit_and-even4 (a / 16) b)

pub bit_and_three : (a : ℕ) → bit_and a 3 ≡ a % 4
bit_and_three a =
    omega (arith, bit_and-odd a 1, bit_and-odd (a / 2) 0, bit_and-zero (a / 2 / 2) (a / 2 / 2))

pub bit_and_seven : (a : ℕ) → bit_and a 7 ≡ a % 8
bit_and_seven a = omega (arith, bit_and-odd a 3, bit_and_three (a / 2))

pub bit_and_fifteen : (a : ℕ) → bit_and a 15 ≡ a % 16
bit_and_fifteen a = omega (arith, bit_and-odd a 7, bit_and_seven (a / 2))

pub bit_and_byte : (a : ℕ) → bit_and a 0xff ≡ a % 256
bit_and_byte a = omega (
  arith,
  bit_and-odd a 127,
  bit_and-odd (a / 2) 63,
  bit_and-odd (a / 2 / 2) 31,
  bit_and-odd (a / 2 / 2 / 2) 15,
  bit_and_fifteen (a / 2 / 2 / 2 / 2),
)

pub bit_and_eight : (a : ℕ) → bit_and a 8 ≡ a / 8 % 2 * 8
bit_and_eight a = omega (
  arith,
  bit_and-even a 4,
  bit_and-even (a / 2) 2,
  bit_and-even (a / 2 / 2) 1,
  bit_and-odd (a / 2 / 2 / 2) 0,
  bit_and-zero (a / 2 / 2 / 2 / 2) (a / 2 / 2 / 2 / 2),
)

-- The second, third and fourth byte of a word, by masks.
pub bit_and_byte1 : (a : ℕ) → bit_and a 0xff00 ≡ a / 256 % 256 * 256
bit_and_byte1 a = omega (arith, bit_and-even8 a 0xff, bit_and_byte (a / 256))

pub bit_and_byte2 : (a : ℕ) → bit_and a 0xff_0000 ≡ a / 2 ^ 16 % 256 * 2 ^ 16
bit_and_byte2 a = omega (arith, bit_and-even8 a 0xff00, bit_and_byte1 (a / 256))

pub bit_and_byte3 : (a : ℕ) → bit_and a 0xff00_0000 ≡ a / 2 ^ 24 % 256 * 2 ^ 24
bit_and_byte3 a = omega (arith, bit_and-even8 a 0xff_0000, bit_and_byte2 (a / 256))

-- The high four bits of a byte.
pub bit_and_high4 : (a : ℕ) → bit_and a 0xf0 ≡ a / 16 % 16 * 16
bit_and_high4 a = omega (arith, bit_and-even4 a 15, bit_and_fifteen (a / 16))

nibbles_table : all_below 16 (λ h. all_below 16 (λ l. bit_or (h * 16 % 256) l == h * 16 + l)) ≡ true
unfolding all_below
nibbles_table = refl

-- Two four-bit fields in a byte.
pub bit_or_nibbles : (h l : ℕ) → h < 16 → l < 16 → bit_or (h * 16 % 256) l ≡ h * 16 + l
bit_or_nibbles h l p q = (==_iff _ _).0 (
    all_below_lem 16 (λ l. bit_or (h * 16 % 256) l == h * 16 + l) l q
      (all_below_lem 16 _ h p nibbles_table))

-- The three fields of a ModR/M or SIB byte.
fields_table :
    all_below 4 (λ h. all_below 8 (λ m.
      all_below 8 (λ l. bit_or (bit_or (h * 64 % 256) (m * 8 % 256)) l == h * 64 + m * 8 + l)))
    ≡ true
unfolding all_below
fields_table = refl

pub bit_or_fields :
    (h m l : ℕ)
    → h < 4
    → m < 8
    → l < 8
    → bit_or (bit_or (h * 64 % 256) (m * 8 % 256)) l ≡ h * 64 + m * 8 + l
bit_or_fields h m l p q r = (==_iff _ _).0 (
    all_below_lem 8 (λ l. bit_or (bit_or (h * 64 % 256) (m * 8 % 256)) l == h * 64 + m * 8 + l) l r
      (all_below_lem 8 _ m q (all_below_lem 4 _ h p fields_table)))
