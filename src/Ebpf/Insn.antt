-- ===== src/Ebpf/Insn.antt =====
-- casestudy/sbpf/src/ebpf.rs: the instruction record and its byte form. `prog` is a list of bytes;
-- `none` is the panic on an index out of range.
pub mod RoundTrip
use aeneas2isabelle.Prelude.{
  ℕ, ◌+◌, ◌*◌, ◌/◌, ◌%◌, ◌^◌, Bool, Option, none, some, List, [], ◌∷◌, leb, if◌then◌else◌, length,
  get_elem?, bit_and, bit_or,
}
use aeneas2isabelle.Prelude.Int.{ℤ, pos, wrap, to_signed}
use aeneas2isabelle.Ebpf.Opcodes.{insn_size}
use Prim.Native.Nat.{min}

pub record Insn : Type 0 where
  pub ptr : ℕ
  pub opc : ℕ
  pub dst : ℕ
  pub src : ℕ
  pub off : ℤ
  pub imm : ℤ

infixl 5 ◌>>=◌
abbrev pub ◌>>=◌ {ℓ κ} : {A : Type ℓ} {B : Type κ} → Option A → (A → Option B) → Option B
none >>= f = none
some a >>= f = f a

-- `self.src.wrapping_shl(4) | self.dst` on `u8`.
unfoldable pub registers_byte : ℕ → ℕ → ℕ
registers_byte src dst = bit_or (src * 16 % 256) dst

unfoldable pub to_array : Insn → List ℕ
unfolding registers_byte
to_array i =
    i.opc
    ∷ registers_byte i.src i.dst
    ∷ bit_and (wrap (2 ^ 16) i.off) 0xff
    ∷ wrap (2 ^ 16) i.off / 2 ^ 8 % 256
    ∷ bit_and (wrap (2 ^ 64) i.imm) 0xff
    ∷ bit_and (wrap (2 ^ 64) i.imm) 0xff00 / 2 ^ 8 % 256
    ∷ bit_and (wrap (2 ^ 32) i.imm) 0xff_0000 / 2 ^ 16 % 256
    ∷ bit_and (wrap (2 ^ 32) i.imm) 0xff00_0000 / 2 ^ 24 % 256
    ∷ []

-- `to_vec` copies the array.
unfoldable pub to_vec : Insn → List ℕ
unfolding to_array
to_vec = to_array

-- `usize` has 64 bits: the largest value is 2 ^ 64 - 1.
abbrev pub usize_max : ℕ
usize_max = 0xffff_ffff_ffff_ffff

unfoldable pub is_pc_in_program : List ℕ → ℕ → Bool
is_pc_in_program prog pc = leb (min usize_max (min usize_max (pc + 1) * insn_size)) (length prog)

-- `LittleEndian::read_i16` and `read_i32` of the bytes from an index on.
unfoldable pub read_i16 : List ℕ → ℕ → Option ℤ
read_i16 prog at = do
  b0 ← get_elem? prog at
  b1 ← get_elem? prog (at + 1)
  some (to_signed (2 ^ 15) (2 ^ 16) (b0 + 256 * b1))

unfoldable pub read_i32 : List ℕ → ℕ → Option ℤ
read_i32 prog at = do
  b0 ← get_elem? prog at
  b1 ← get_elem? prog (at + 1)
  b2 ← get_elem? prog (at + 2)
  b3 ← get_elem? prog (at + 3)
  some (to_signed (2 ^ 31) (2 ^ 32) (b0 + 256 * (b1 + 256 * (b2 + 256 * b3))))

unfoldable pub get_insn_unchecked : List ℕ → ℕ → Option Insn
get_insn_unchecked prog pc = do
  opc ← get_elem? prog (insn_size * pc)
  registers ← get_elem? prog (insn_size * pc + 1)
  off ← read_i16 prog (insn_size * pc + 2)
  imm ← read_i32 prog (insn_size * pc + 4)
  some (record {
    ptr = pc;
    opc = opc;
    dst = bit_and registers 0x0f;
    src = bit_and registers 0xf0 / 2 ^ 4;
    off = off;
    imm = imm;
  })

-- The `debug_assert` of `get_insn`, as in a debug build.
unfoldable pub get_insn : List ℕ → ℕ → Option Insn
unfolding is_pc_in_program
get_insn prog pc = if is_pc_in_program prog pc then get_insn_unchecked prog pc else none

-- `LittleEndian::read_i32` of the next slot is the upper half of the immediate.
unfoldable pub augment_lddw_unchecked : List ℕ → Insn → Option Insn
unfolding read_i32
augment_lddw_unchecked prog insn = do
  upper ← read_i32 prog ((insn.ptr + 1) * insn_size + 4)
  some (record insn {
    imm = to_signed (2 ^ 63) (2 ^ 64) (
        bit_or (bit_and (wrap (2 ^ 64) insn.imm) 0xffff_ffff)
          (wrap (2 ^ 64) upper * 2 ^ 32 % 2 ^ 64));
  })
