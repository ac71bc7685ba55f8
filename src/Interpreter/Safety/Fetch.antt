-- ===== src/Interpreter/Safety/Fetch.antt =====
-- What the interpreter reads of a program of bytes.
use aeneas2isabelle.Prelude.{
  ℕ, zero, suc, ◌+◌, ◌*◌, ◌/◌, ◌^◌, ◌<◌, ◌≡◌, refl, true, some, List, [], ◌∷◌, ltb, length,
  get_elem?, get_elem?-lt, arith, Bool-cases, Option-cases, inl, inr, bit_and,
}
use aeneas2isabelle.Prelude.Int.{to_signed, IsI32}
use aeneas2isabelle.Prelude.Words.{AllBytes}
use aeneas2isabelle.Ebpf.Opcodes.{insn_size}
use aeneas2isabelle.Ebpf.Insn.{
  Insn, get_insn, get_insn_unchecked, augment_lddw_unchecked, is_pc_in_program, read_i16, read_i32,
  usize_max,
}

get_elem?-AllBytes :
    (bytes : List ℕ) (i b : ℕ) → AllBytes bytes → get_elem? bytes i ≡ some b → b < 256
get_elem?-AllBytes [] i b h e = cc
get_elem?-AllBytes (x ∷ bytes) zero b h e = ground arith
get_elem?-AllBytes (x ∷ bytes) (suc i) b h e = get_elem?-AllBytes bytes i b h.1 e

to_signed-IsI32 : (w : ℕ) → w < 2 ^ 32 → IsI32 (to_signed (2 ^ 31) (2 ^ 32) w)
to_signed-IsI32 w h = elim (Bool-cases (ltb w (2 ^ 31))) [
  | inl e ↦ rw e (ground arith)
  | inr e ↦ rw e (ground arith)
]

-- An instruction of a program of bytes.
pub record IsFetched (text : List ℕ) (pc : ℕ) (insn : Insn) : Type 0 where
  pub found : get_insn text pc ≡ some insn
  pub unchecked : get_insn_unchecked text pc ≡ some insn
  pub ptr : insn.ptr ≡ pc
  pub opcode : insn.opc < 256
  pub small : IsI32 insn.imm

pub fetch :
    (text : List ℕ) (pc : ℕ)
    → AllBytes text
    → length text < usize_max
    → pc < length text / insn_size
    → (insn : Insn) × IsFetched text pc insn
unfolding get_insn get_insn_unchecked is_pc_in_program read_i16 read_i32
fetch text pc bytes small inside =
    let (b0, e0) = get_elem?-lt text (8 * pc) (omega arith) in
    let (b1, e1) = get_elem?-lt text (8 * pc + 1) (omega arith) in
    let (b2, e2) = get_elem?-lt text (8 * pc + 2) (omega arith) in
    let (b3, e3) = get_elem?-lt text (8 * pc + 2 + 1) (omega arith) in
    let (b4, e4) = get_elem?-lt text (8 * pc + 4) (omega arith) in
    let (b5, e5) = get_elem?-lt text (8 * pc + 4 + 1) (omega arith) in
    let (b6, e6) = get_elem?-lt text (8 * pc + 4 + 2) (omega arith) in
    let (b7, e7) = get_elem?-lt text (8 * pc + 4 + 3) (omega arith) in
    let here : is_pc_in_program text pc ≡ true = unfold is_pc_in_program in ground arith in
    (
      record {
        ptr = pc;
        opc = b0;
        dst = bit_and b1 0x0f;
        src = bit_and b1 0xf0 / 2 ^ 4;
        off = to_signed (2 ^ 15) (2 ^ 16) (b2 + 256 * b3);
        imm = to_signed (2 ^ 31) (2 ^ 32) (b4 + 256 * (b5 + 256 * (b6 + 256 * b7)));
      },
      record {
        found = rw (here, e0, e1, e2, e3, e4, e5, e6, e7) refl;
        unchecked = rw (e0, e1, e2, e3, e4, e5, e6, e7) refl;
        ptr = refl;
        opcode = get_elem?-AllBytes text _ b0 bytes e0;
        small = to_signed-IsI32 _ (
            omega (
              arith,
              get_elem?-AllBytes text _ b4 bytes e4,
              get_elem?-AllBytes text _ b5 bytes e5,
              get_elem?-AllBytes text _ b6 bytes e6,
              get_elem?-AllBytes text _ b7 bytes e7,
            ));
      },
    )

-- The second slot of an instruction of two slots can be read.
pub augment_lddw-some :
    (text : List ℕ) (insn : Insn)
    → insn.ptr + 1 < length text / insn_size
    → (long : Insn) × (augment_lddw_unchecked text insn ≡ some long)
unfolding augment_lddw_unchecked read_i32
augment_lddw-some text insn inside =
    let (b4, e4) = get_elem?-lt text ((insn.ptr + 1) * 8 + 4) (omega arith) in
    let (b5, e5) = get_elem?-lt text ((insn.ptr + 1) * 8 + 4 + 1) (omega arith) in
    let (b6, e6) = get_elem?-lt text ((insn.ptr + 1) * 8 + 4 + 2) (omega arith) in
    let (b7, e7) = get_elem?-lt text ((insn.ptr + 1) * 8 + 4 + 3) (omega arith) in
    elim (Option-cases (augment_lddw_unchecked text insn)) [
      | inl e ↦ absurd (let e' = rw (e4, e5, e6, e7) at e in cc)
      | inr found ↦ found
    ]
