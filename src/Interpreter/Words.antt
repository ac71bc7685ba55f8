-- ===== src/Interpreter/Words.antt =====
-- The casts and the arithmetic of Rust's machine integers that the interpreter uses. A word is a
-- natural number below its width, a signed number an integer.
use aeneas2isabelle.Prelude.{
  ℕ, zero, suc, ◌+◌, ◌-◌, ◌*◌, ◌/◌, ◌%◌, ◌^◌, Bool, ◌&&◌, ◌||◌, not, ltb, ◌==◌, if◌then◌else◌,
}
use aeneas2isabelle.Prelude.Int.{ℤ, pos, negsuc, sub_ℕ, pos_part, neg_part, wrap, to_signed}

-- `x as u32` of a `u64`.
abbrev pub as_u32 : ℕ → ℕ
as_u32 x = x % 2 ^ 32

-- `x as i32` and `x as i64` of a `u64`.
abbrev pub as_i32 : ℕ → ℤ
as_i32 x = to_signed (2 ^ 31) (2 ^ 32) (x % 2 ^ 32)

abbrev pub as_i64 : ℕ → ℤ
as_i64 x = to_signed (2 ^ 63) (2 ^ 64) (x % 2 ^ 64)

-- The results of signed arithmetic that wraps around.
abbrev pub wrapping_i32 : ℤ → ℤ
wrapping_i32 z = to_signed (2 ^ 31) (2 ^ 32) (wrap (2 ^ 32) z)

-- `x as i32`, `x as u32` and `x as u64` of an immediate.
abbrev pub imm_i32 : ℤ → ℤ
imm_i32 = wrapping_i32

abbrev pub imm_u32 : ℤ → ℕ
imm_u32 z = wrap (2 ^ 32) z

abbrev pub imm_u64 : ℤ → ℕ
imm_u64 z = wrap (2 ^ 64) z

infixl 65 ◌-ℤ◌
infixl 70 ◌*ℤ◌
unfoldable pub ◌-ℤ◌ : ℤ → ℤ → ℤ
a -ℤ b = sub_ℕ (pos_part a + neg_part b) (neg_part a + pos_part b)

unfoldable pub ◌*ℤ◌ : ℤ → ℤ → ℤ
a *ℤ b =
    sub_ℕ (pos_part a * pos_part b + neg_part a * neg_part b)
      (pos_part a * neg_part b + neg_part a * pos_part b)

abbrev pub eq_ℤ : ℤ → ℤ → Bool
eq_ℤ a b = (pos_part a == pos_part b) && (neg_part a == neg_part b)

abbrev pub ltb_ℤ : ℤ → ℤ → Bool
ltb_ℤ a b = ltb (pos_part a + neg_part b) (pos_part b + neg_part a)

-- `wrapping_add`, `wrapping_sub` and `wrapping_mul` of words of `2 ^ w` values.
abbrev pub wrapping_add : ℕ → ℕ → ℕ → ℕ
wrapping_add w a b = (a + b) % 2 ^ w

abbrev pub wrapping_sub : ℕ → ℕ → ℕ → ℕ
wrapping_sub w a b = (a + 2 ^ w - b % 2 ^ w) % 2 ^ w

abbrev pub wrapping_mul : ℕ → ℕ → ℕ → ℕ
wrapping_mul w a b = a * b % 2 ^ w

-- `wrapping_shl` and `wrapping_shr` take the distance modulo the width.
abbrev pub wrapping_shl : ℕ → ℕ → ℕ → ℕ
wrapping_shl w a n = a * 2 ^ (n % w) % 2 ^ w

abbrev pub wrapping_shr : ℕ → ℕ → ℕ → ℕ
wrapping_shr w a n = a / 2 ^ (n % w)

-- A shift of a signed number to the right rounds down.
abbrev pub shift_right : ℤ → ℕ → ℤ
shift_right (pos a) n = pos (a / 2 ^ n)
shift_right (negsuc a) n = negsuc (a / 2 ^ n)

-- `/` and `%` of signed numbers round towards zero.
abbrev pub magnitude : ℤ → ℕ
magnitude z = pos_part z + neg_part z

abbrev pub is_negative : ℤ → Bool
is_negative z = ltb 0 (neg_part z)

abbrev pub with_sign : Bool → ℕ → ℤ
with_sign negative n = if negative then sub_ℕ 0 n else pos n

unfoldable pub quotient : ℤ → ℤ → ℤ
quotient a b =
    with_sign (is_negative a && not (is_negative b) || not (is_negative a) && is_negative b)
      (magnitude a / magnitude b)

unfoldable pub remainder : ℤ → ℤ → ℤ
remainder a b = with_sign (is_negative a) (magnitude a % magnitude b)

-- `to_be` on a little-endian host: the lowest `n` bytes in the other order.
unfoldable pub swap_bytes : ℕ → ℕ → ℕ
swap_bytes zero x = 0
swap_bytes (suc n) x = x % 256 * 256 ^ n + swap_bytes n (x / 256)

-- `i64::MIN`.
abbrev pub i64_min : ℤ
i64_min = negsuc 0x7fff_ffff_ffff_ffff
