-- ===== src/Prelude/Int.antt =====
-- Signed integers over the native numbers. An `i16`, `i32`, `i64` or `i128` of the source is such
-- an integer, with its range stated where it matters.
use aeneas2isabelle.Prelude.Tests.{ltb, leb, if◌then◌else◌}
use Prim.Native.Nat.{ℕ, suc, ◌+◌, ◌-◌, ◌%◌, ◌≤◌}
use mathlib.Core.Bool.{Bool, ◌&&◌}

-- `negsuc n` is -(n + 1).
pub data ℤ : Type 0 where
  pos : ℕ → ℤ
  negsuc : ℕ → ℤ

abbrev pub pos_part : ℤ → ℕ
pos_part (pos n) = n
pos_part (negsuc n) = 0

abbrev pub neg_part : ℤ → ℕ
neg_part (pos n) = 0
neg_part (negsuc n) = suc n

-- a - b, as an integer.
abbrev pub sub_ℕ : ℕ → ℕ → ℤ
sub_ℕ a b = if leb b a then pos (a - b) else negsuc (b - a - 1)

infixl 65 ◌+ℤ◌
infix 50 ◌≤ℤ◌
unfoldable pub ◌+ℤ◌ : ℤ → ℤ → ℤ
a +ℤ b = sub_ℕ (pos_part a + pos_part b) (neg_part a + neg_part b)

abbrev pub ◌≤ℤ◌ : ℤ → ℤ → Type 0
a ≤ℤ b = pos_part a + neg_part b ≤ pos_part b + neg_part a

abbrev pub leb_ℤ : ℤ → ℤ → Bool
leb_ℤ a b = leb (pos_part a + neg_part b) (pos_part b + neg_part a)

-- The bounds of the source's signed types.
abbrev pub i8_min : ℤ
i8_min = negsuc 127

abbrev pub i8_max : ℤ
i8_max = pos 127

abbrev pub i32_min : ℤ
i32_min = negsuc 0x7fff_ffff

abbrev pub i32_max : ℤ
i32_max = pos 0x7fff_ffff

-- A cast to an unsigned type of `m` values.
abbrev pub wrap : ℕ → ℤ → ℕ
wrap m (pos n) = n % m
wrap m (negsuc n) = m - 1 - n % m

-- A cast of a word of `m` values to the signed type of that width, `h` being half of `m`.
abbrev pub to_signed : ℕ → ℕ → ℕ → ℤ
to_signed h m w = if ltb w h then pos w else negsuc (m - 1 - w)

abbrev pub in_i8 : ℤ → Bool
in_i8 z = leb_ℤ i8_min z && leb_ℤ z i8_max

abbrev pub in_i32 : ℤ → Bool
in_i32 z = leb_ℤ i32_min z && leb_ℤ z i32_max

abbrev pub IsI16 : ℤ → Type 0
IsI16 z = (negsuc 0x7fff ≤ℤ z) × (z ≤ℤ pos 0x7fff)

abbrev pub IsI32 : ℤ → Type 0
IsI32 z = (i32_min ≤ℤ z) × (z ≤ℤ i32_max)

abbrev pub IsI64 : ℤ → Type 0
IsI64 z = (negsuc 0x7fff_ffff_ffff_ffff ≤ℤ z) × (z ≤ℤ pos 0x7fff_ffff_ffff_ffff)
