-- ===== src/Ebpf/Insn/RoundTrip.antt =====
-- Writing instructions to bytes and reading them back.
use aeneas2isabelle.Prelude.{
  ℕ, zero, suc, ◌+◌, ◌*◌, ◌/◌, ◌%◌, ◌^◌, ◌<◌, ◌≡◌, refl, ap, subst, ◌∙◌, true, some, List, [], ◌∷◌,
  ◌++◌, arith, length, get_elem?, bit_and,
}
use aeneas2isabelle.Prelude.Int.{ℤ, pos, negsuc, wrap, to_signed, IsI16, IsI32}
use aeneas2isabelle.Prelude.Bits.{
  bit_and_byte, bit_and_byte1, bit_and_byte2, bit_and_byte3, bit_and_fifteen, bit_and_high4,
  bit_or_nibbles,
}
use aeneas2isabelle.Ebpf.Opcodes.{insn_size}
use aeneas2isabelle.Ebpf.Insn.{
  Insn, registers_byte, to_array, is_pc_in_program, get_insn, get_insn_unchecked, read_i16,
  read_i32, usize_max,
}

-- The fields fit the encoding.
pub record IsEncodable (i : Insn) : Type 0 where
  pub opc : i.opc < 256
  pub dst : i.dst < 16
  pub src : i.src < 16
  pub off : IsI16 i.off
  pub imm : IsI32 i.imm

abbrev pub AllEncodable : List Insn → Type 0
AllEncodable [] = Unit
AllEncodable (i ∷ is) = IsEncodable i × AllEncodable is

unfoldable pub program_bytes : List Insn → List ℕ
program_bytes [] = []
program_bytes (i ∷ is) = to_array i ++ program_bytes is

-- The bytes that `to_array` writes, in plain arithmetic.
abbrev pub plain_bytes : Insn → List ℕ
plain_bytes i =
    i.opc
    ∷ (i.src * 16 + i.dst)
    ∷ (wrap (2 ^ 16) i.off % 256)
    ∷ (wrap (2 ^ 16) i.off / 256)
    ∷ (wrap (2 ^ 32) i.imm % 256)
    ∷ (wrap (2 ^ 32) i.imm / 256 % 256)
    ∷ (wrap (2 ^ 32) i.imm / 2 ^ 16 % 256)
    ∷ (wrap (2 ^ 32) i.imm / 2 ^ 24 % 256)
    ∷ []

pub wrap-lt16 : (z : ℤ) → wrap (2 ^ 16) z < 2 ^ 16
wrap-lt16 (pos n) = omega arith
wrap-lt16 (negsuc n) = omega arith

pub wrap_low : (z : ℤ) → wrap (2 ^ 64) z % 2 ^ 32 ≡ wrap (2 ^ 32) z
wrap_low (pos n) = omega arith
wrap_low (negsuc n) = omega arith

pub cons8 :
    {a b c d e f g h a' b' c' d' e' f' g' h' : ℕ}
    → a ≡ a'
    → b ≡ b'
    → c ≡ c'
    → d ≡ d'
    → e ≡ e'
    → f ≡ f'
    → g ≡ g'
    → h ≡ h'
    → a ∷ b ∷ c ∷ d ∷ e ∷ f ∷ g ∷ h ∷ [] ≡ a' ∷ b' ∷ c' ∷ d' ∷ e' ∷ f' ∷ g' ∷ h' ∷ []
cons8 p q r s t u v w = cc

pub to_array-plain : (i : Insn) → IsEncodable i → to_array i ≡ plain_bytes i
unfolding to_array registers_byte
to_array-plain i h =
    cons8 refl (bit_or_nibbles i.src i.dst h.src h.dst) (bit_and_byte (wrap (2 ^ 16) i.off))
      (omega (arith, wrap-lt16 i.off))
      (omega (arith, bit_and_byte (wrap (2 ^ 64) i.imm), wrap_low i.imm))
      (omega (arith, bit_and_byte1 (wrap (2 ^ 64) i.imm), wrap_low i.imm))
      (omega (arith, bit_and_byte2 (wrap (2 ^ 32) i.imm)))
      (omega (arith, bit_and_byte3 (wrap (2 ^ 32) i.imm)))

to_signed16 : (z : ℤ) → IsI16 z → to_signed (2 ^ 15) (2 ^ 16) (wrap (2 ^ 16) z) ≡ z
to_signed16 (pos n) h = ground arith
to_signed16 (negsuc n) h = ground arith

to_signed32 : (z : ℤ) → IsI32 z → to_signed (2 ^ 31) (2 ^ 32) (wrap (2 ^ 32) z) ≡ z
to_signed32 (pos n) h = ground arith
to_signed32 (negsuc n) h = ground arith

length-program_bytes : (is : List Insn) → length (program_bytes is) ≡ 8 * length is
unfolding program_bytes to_array
length-program_bytes [] = refl
length-program_bytes (i ∷ is) = omega (arith, length-program_bytes is)

get_elem?-skip8 :
    (i : Insn) (bytes : List ℕ) (k : ℕ)
    → get_elem? (to_array i ++ bytes) (8 + k) ≡ get_elem? bytes k
unfolding to_array
get_elem?-skip8 i bytes k = rw (eight k) refl
  where
    eight : (k : ℕ) → 8 + k ≡ suc (suc (suc (suc (suc (suc (suc (suc k)))))))
    eight k = omega arith

get_elem?-append_lt :
    (xs ys : List ℕ) (k : ℕ) → k < length xs → get_elem? (xs ++ ys) k ≡ get_elem? xs k
get_elem?-append_lt [] ys k h = absurd (omega arith)
get_elem?-append_lt (x ∷ xs) ys zero h = refl
get_elem?-append_lt (x ∷ xs) ys (suc k) h = get_elem?-append_lt xs ys k (omega arith)

-- Where the bytes of the instruction at `k` stand.
byte_of :
    (is : List Insn) (k j : ℕ) (i : Insn)
    → get_elem? is k ≡ some i
    → j < 8
    → get_elem? (program_bytes is) (8 * k + j) ≡ get_elem? (to_array i) j
unfolding program_bytes
byte_of [] k j i e h = cc
byte_of (i' ∷ is) zero j i e h =
    ap (λ (n : ℕ). get_elem? (to_array i' ++ program_bytes is) n) (omega arith)
    ∙ get_elem?-append_lt (to_array i') (program_bytes is) j (unfold to_array in omega arith)
    ∙ ap (λ t. get_elem? (to_array t) j) (let same : i' ≡ i = cc in same)
byte_of (i' ∷ is) (suc k) j i e h =
    ap (λ (n : ℕ). get_elem? (to_array i' ++ program_bytes is) n) (omega arith)
    ∙ get_elem?-skip8 i' (program_bytes is) (8 * k + j)
    ∙ byte_of is k j i e h

module _ (is : List Insn) (k : ℕ) (i : Insn) (found : get_elem? is k ≡ some i)
    (h : IsEncodable i) where
  plain_byte :
      (at j : ℕ)
      → at ≡ 8 * k + j
      → j < 8
      → get_elem? (program_bytes is) at ≡ get_elem? (plain_bytes i) j
  plain_byte at j e lt =
      ap (get_elem? (program_bytes is)) e
      ∙ byte_of is k j i found lt
      ∙ ap (λ t. get_elem? t j) (to_array-plain i h)

  read_off : read_i16 (program_bytes is) (insn_size * k + 2) ≡ some i.off
  unfolding read_i16
  read_off =
      rw
        (
          plain_byte (8 * k + 2) 2 refl (omega arith),
          plain_byte (8 * k + 2 + 1) 3 (omega arith) (omega arith),
        )
        (ap some (ap (to_signed (2 ^ 15) (2 ^ 16)) joined ∙ to_signed16 i.off h.off))
    where
      joined : wrap (2 ^ 16) i.off % 256 + 256 * (wrap (2 ^ 16) i.off / 256) ≡ wrap (2 ^ 16) i.off
      joined = omega arith

  read_imm : read_i32 (program_bytes is) (insn_size * k + 4) ≡ some i.imm
  unfolding read_i32
  read_imm =
      rw
        (
          plain_byte (8 * k + 4) 4 refl (omega arith),
          plain_byte (8 * k + 4 + 1) 5 (omega arith) (omega arith),
          plain_byte (8 * k + 4 + 2) 6 (omega arith) (omega arith),
          plain_byte (8 * k + 4 + 3) 7 (omega arith) (omega arith),
        )
        (ap some (ap (to_signed (2 ^ 31) (2 ^ 32)) joined ∙ to_signed32 i.imm h.imm))
    where
      bound : (z : ℤ) → wrap (2 ^ 32) z < 2 ^ 32
      bound (pos n) = omega arith
      bound (negsuc n) = omega arith

      joined :
          wrap (2 ^ 32) i.imm % 256
            + 256
              * (wrap (2 ^ 32) i.imm / 256 % 256
                  + 256
                    * (wrap (2 ^ 32) i.imm / 2 ^ 16 % 256
                        + 256 * (wrap (2 ^ 32) i.imm / 2 ^ 24 % 256)))
          ≡ wrap (2 ^ 32) i.imm
      joined = omega (arith, bound i.imm)

  get_insn_unchecked-program_bytes :
      get_insn_unchecked (program_bytes is) k ≡ some (record i { ptr = k })
  unfolding get_insn_unchecked
  get_insn_unchecked-program_bytes = rw (
    plain_byte (8 * k) 0 (omega arith) (omega arith),
    plain_byte (8 * k + 1) 1 refl (omega arith),
    read_off,
    read_imm,
    low,
    high,
  )
    where
      low : bit_and (i.src * 16 + i.dst) 15 ≡ i.dst
      low = omega (arith, bit_and_fifteen (i.src * 16 + i.dst), h.src, h.dst)

      high : bit_and (i.src * 16 + i.dst) 0xf0 / 2 ^ 4 ≡ i.src
      high = omega (arith, bit_and_high4 (i.src * 16 + i.dst), h.src, h.dst)

get_elem?-lt_length : (is : List Insn) (k : ℕ) (i : Insn) → get_elem? is k ≡ some i → k < length is
get_elem?-lt_length [] k i e = cc
get_elem?-lt_length (j ∷ is) zero i e = omega arith
get_elem?-lt_length (j ∷ is) (suc k) i e = omega (arith, get_elem?-lt_length is k i e)

AllEncodable-get_elem? :
    (is : List Insn) (k : ℕ) (i : Insn) → AllEncodable is → get_elem? is k ≡ some i → IsEncodable i
AllEncodable-get_elem? [] k i h e = cc
AllEncodable-get_elem? (j ∷ is) zero i (h, t) e = let same : j ≡ i = cc in subst IsEncodable same h
AllEncodable-get_elem? (j ∷ is) (suc k) i (h, t) e = AllEncodable-get_elem? is k i t e

-- The instruction that `get_insn` reads at a program counter of a program written by `to_array` is
-- the one written there, with the program counter as its pointer: for fields that fit the encoding
-- and a program whose byte length is below `usize::MAX`.
pub get_insn-program_bytes :
    (is : List Insn) (k : ℕ) (i : Insn)
    → AllEncodable is
    → 8 * length is < usize_max
    → get_elem? is k ≡ some i
    → get_insn (program_bytes is) k ≡ some (record i { ptr = k })
unfolding get_insn
get_insn-program_bytes is k i all small found =
    rw inside
      (get_insn_unchecked-program_bytes is k i found (AllEncodable-get_elem? is k i all found))
  where
    inside : is_pc_in_program (program_bytes is) k ≡ true
    inside =
        unfold is_pc_in_program in
        ground (arith, length-program_bytes is, get_elem?-lt_length is k i found)
