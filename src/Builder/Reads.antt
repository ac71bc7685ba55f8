-- ===== src/Builder/Reads.antt =====
-- The instructions of a built program are read back.
use aeneas2isabelle.Prelude.{
  ℕ, ◌*◌, ◌≡◌, ◌<◌, refl, sym, ap, ◌∙◌, some, List, [], ◌∷◌, ◌++◌, length, get_elem?, zero, suc,
  arith,
}
use mathlib.Core.List.{append_assoc, append-nil}
use aeneas2isabelle.Ebpf.Insn.{Insn, to_array, get_insn, usize_max}
use aeneas2isabelle.Ebpf.Insn.RoundTrip.{
  IsEncodable, AllEncodable, program_bytes, wrap-lt16, wrap_low, cons8, to_array-plain,
  get_insn-program_bytes,
}
use aeneas2isabelle.Prelude.Bits.{bit_or_nibbles}
use aeneas2isabelle.Program.{SbpfVersion}
use aeneas2isabelle.Builder.{
  Instruction, BpfCode, Building, new, opt_code_byte, get_src, get_dst, into_bytes, push,
}

-- The instruction record that a structure stands for in a version.
unfoldable pub built : SbpfVersion → Instruction × Insn → Insn
unfolding opt_code_byte get_src get_dst
built version (instruction, insn) = record {
  ptr = 0;
  opc = opt_code_byte version instruction;
  dst = get_dst version instruction insn;
  src = get_src version instruction insn;
  off = insn.off;
  imm = insn.imm;
}

-- The bytes of the builder are those that `Insn::to_array` writes.
into_bytes-to_array :
    (b : Building)
    → IsEncodable (built b.bpf_code.sbpf_version (b.instruction, b.insn))
    → into_bytes b ≡ to_array (built b.bpf_code.sbpf_version (b.instruction, b.insn))
unfolding into_bytes built
into_bytes-to_array b h =
    cons8 refl (bit_or_nibbles _ _ h.src h.dst) refl (omega (arith, wrap-lt16 b.insn.off))
      (omega (arith, wrap_low b.insn.imm)) (omega (arith, wrap_low b.insn.imm))
      (omega (arith, wrap_low b.insn.imm)) (omega (arith, wrap_low b.insn.imm))
    ∙ sym (to_array-plain (built b.bpf_code.sbpf_version (b.instruction, b.insn)) h)

-- A sequence of pushes.
unfoldable pub push_all : BpfCode → List (Instruction × Insn) → BpfCode
unfolding push
push_all code [] = code
push_all code ((instruction, insn) ∷ rest) =
    push_all (push (record { bpf_code = code; instruction = instruction; insn = insn })) rest

abbrev pub all_built : SbpfVersion → List (Instruction × Insn) → List Insn
all_built version [] = []
all_built version (step ∷ rest) = built version step ∷ all_built version rest

push_all-program_bytes :
    (code : BpfCode) (steps : List (Instruction × Insn))
    → AllEncodable (all_built code.sbpf_version steps)
    → (push_all code steps).instructions
      ≡ code.instructions ++ program_bytes (all_built code.sbpf_version steps)
unfolding push_all program_bytes push
push_all-program_bytes code [] h = sym (append-nil code.instructions)
push_all-program_bytes code ((instruction, insn) ∷ rest) (first, later) =
    let b : Building = record { bpf_code = code; instruction = instruction; insn = insn } in
    push_all-program_bytes (push b) rest later
    ∙ append_assoc code.instructions (into_bytes b) _
    ∙ ap
        (λ (l : List ℕ).
          code.instructions ++ (l ++ program_bytes (all_built code.sbpf_version rest)))
        (into_bytes-to_array b first)

length-all_built :
    (version : SbpfVersion) (steps : List (Instruction × Insn))
    → length (all_built version steps) ≡ length steps
length-all_built version [] = refl
length-all_built version (step ∷ rest) = ap suc (length-all_built version rest)

get_elem?-all_built :
    (version : SbpfVersion) (steps : List (Instruction × Insn)) (k : ℕ) (step : Instruction × Insn)
    → get_elem? steps k ≡ some step
    → get_elem? (all_built version steps) k ≡ some (built version step)
get_elem?-all_built version [] k step e = cc
get_elem?-all_built version (first ∷ rest) zero step e =
    let same : first ≡ step = cc in ap (λ (s : Instruction × Insn). some (built version s)) same
get_elem?-all_built version (first ∷ rest) (suc k) step e =
    get_elem?-all_built version rest k step e

-- A program that is built by a sequence of pushes holds, at each program counter, the instruction
-- that was pushed there: its opcode in the version of the program, the registers that this kind of
-- instruction keeps in that version, its offset and its immediate. The fields fit the encoding and
-- the program is shorter than `usize::MAX`.
pub get_insn-push_all :
    (version : SbpfVersion) (steps : List (Instruction × Insn)) (k : ℕ) (step : Instruction × Insn)
    → AllEncodable (all_built version steps)
    → 8 * length steps < usize_max
    → get_elem? steps k ≡ some step
    → get_insn (push_all (new version) steps).instructions k
      ≡ some (record (built version step) { ptr = k })
get_insn-push_all version steps k step all small at =
    ap (λ (bytes : List ℕ). get_insn bytes k) (push_all-program_bytes (new version) steps all)
    ∙ get_insn-program_bytes (all_built version steps) k (built version step) all
        (omega (arith, length-all_built version steps))
        (get_elem?-all_built version steps k step at)
