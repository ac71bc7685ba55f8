-- ===== src/Tests/Built.antt =====
-- A built program, read back, and the opcodes of single instructions.
use aeneas2isabelle.Prelude.{◌≡◌, refl, none, some, List, [], ◌∷◌, arith}
use aeneas2isabelle.Prelude.Int.{negsuc}
use aeneas2isabelle.Ebpf.Insn.{Insn, get_insn}
use aeneas2isabelle.Ebpf.Insn.RoundTrip.{AllEncodable}
use aeneas2isabelle.Program.{v0, v2}
use aeneas2isabelle.Builder.{
  Instruction, new, default_insn, move, add, from_imm, x64, exit, opt_code_byte, word,
}
use aeneas2isabelle.Builder.Reads.{all_built, built, push_all, get_insn-push_all}
use aeneas2isabelle.Builder.Methods.{make, store_x, load_abs, opcode_name}
use aeneas2isabelle.Builder.Named.{opt_code_byte-named}

abbrev two_steps : List (Instruction × Insn)
two_steps =
    (move add from_imm x64, record default_insn { dst = 1; imm = negsuc 4 })
    ∷ (exit, default_insn)
    ∷ []

-- The unit tests of the source give these bytes.
push_all-bytes :
    (push_all (new v0) two_steps).instructions
    ≡ 0x07 ∷ 0x01 ∷ 0 ∷ 0 ∷ 0xfb ∷ 0xff ∷ 0xff ∷ 0xff ∷ 0x95 ∷ 0 ∷ 0 ∷ 0 ∷ 0 ∷ 0 ∷ 0 ∷ 0 ∷ []
unfolding push_all
push_all-bytes = refl

two_steps-AllEncodable : AllEncodable (all_built v0 two_steps)
unfolding built
two_steps-AllEncodable = omega arith

get_insn-push_all_example :
    get_insn (push_all (new v0) two_steps).instructions 0
    ≡ some
        (record (built v0
          (move add from_imm x64, record default_insn { dst = 1; imm = negsuc 4 })) { ptr = 0 })
get_insn-push_all_example =
    get_insn-push_all v0 two_steps 0
      (move add from_imm x64, record default_insn { dst = 1; imm = negsuc 4 })
      two_steps-AllEncodable (omega arith) refl

-- A store of a word from a register, in both encodings, and an instruction without a name.
named_v0 : opcode_name v0 (store_x word) ≡ some 0x63
unfolding opcode_name
named_v0 = refl

named_v2 : opcode_name v2 (store_x word) ≡ some 0x8f
unfolding opcode_name
named_v2 = refl

unnamed : opcode_name v2 (load_abs word) ≡ none
unfolding opcode_name
unnamed = refl

opt_code_byte-named_example : opt_code_byte v2 (make (store_x word)) ≡ 0x8f
opt_code_byte-named_example = opt_code_byte-named v2 (store_x word) 0x8f named_v2
