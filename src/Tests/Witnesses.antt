-- ===== src/Tests/Witnesses.antt =====
-- The theorems at concrete inputs.
use aeneas2isabelle.Prelude.{◌≡◌, refl, ◌↔◌, some, List, [], ◌∷◌, ◌++◌, ℕ, true, arith, inr}
use aeneas2isabelle.Prelude.Int.{pos, negsuc}
use aeneas2isabelle.X86.Types.{s0, s64, rcx, offset_index_shift, X86Instruction, register_code}
use aeneas2isabelle.X86.Encode.{encode}
use aeneas2isabelle.X86.Decode.{decode}
use aeneas2isabelle.X86.Decode.RoundTrip.{IsDecodable, meaning, decode-encode}
use aeneas2isabelle.Ebpf.Insn.{Insn, get_insn}
use aeneas2isabelle.Ebpf.Insn.RoundTrip.{program_bytes, IsEncodable, get_insn-program_bytes}
use aeneas2isabelle.Jit.Types.{JitInstruction, load_immediate, jump, return, jump_immediate, equal}
use aeneas2isabelle.Jit.Result.{ok, and_then, lift}
use aeneas2isabelle.Jit.State.{new}
use aeneas2isabelle.Jit.Emit.{emit_jit_instruction}
use aeneas2isabelle.Jit.Compile.{compile, compile_sbpf}
use aeneas2isabelle.Jit.Compile.Lowering.{lower_all, compile_sbpf_iff}
use aeneas2isabelle.Jit.Reference.{assemble, select}
use aeneas2isabelle.Jit.Reference.Complete.{compile_iff}
use aeneas2isabelle.Jit.Reference.Select.{emit_selected, emit_jit_instruction-select}
use aeneas2isabelle.Tests.Runs.{mov64_add64_exit}

abbrev indexed_load : X86Instruction
indexed_load = record {
  size = s64;
  opcode_escape_sequence = 0;
  opcode = 0x8b;
  modrm = true;
  indirect = some (offset_index_shift (negsuc 7) rcx 2);
  first_operand = 0;
  second_operand = 13;
  immediate_size = s0;
  immediate = pos 0;
}

indexed_load-IsDecodable : IsDecodable indexed_load
unfolding register_code
indexed_load-IsDecodable = record {
  first = omega arith;
  second = omega arith;
  opcode = record {
    not_half = λ e. omega (arith, e);
    not_escape = λ e. omega (arith, e);
    not_rex = inr (omega arith);
  };
  access = (omega arith, λ e. omega (arith, e), λ e. omega (arith, e), (omega arith, omega arith));
}

decode-encode_example :
    decode true 0 (encode indexed_load ++ 0xc3 ∷ []) ≡ some (meaning indexed_load, 0xc3 ∷ [])
decode-encode_example = decode-encode indexed_load (0xc3 ∷ []) indexed_load-IsDecodable

abbrev forward : List JitInstruction
forward = jump 2 ∷ load_immediate s64 0 (pos 7) ∷ return ∷ []

abbrev forward_bytes : List ℕ
forward_bytes = 0xe9 ∷ 5 ∷ 0 ∷ 0 ∷ 0 ∷ 0xb8 ∷ 7 ∷ 0 ∷ 0 ∷ 0 ∷ 0xc3 ∷ []

compile_iff_example : (compile forward ≡ ok forward_bytes) ↔ (assemble forward ≡ ok forward_bytes)
compile_iff_example = compile_iff forward forward_bytes (omega arith)

abbrev mov64_add64_exit_bytes : List ℕ
mov64_add64_exit_bytes = 0xb8 ∷ 1 ∷ 0 ∷ 0 ∷ 0 ∷ 0x48 ∷ 0x81 ∷ 0xc0 ∷ 2 ∷ 0 ∷ 0 ∷ 0 ∷ 0xc3 ∷ []

compile_sbpf_iff_example : (compile_sbpf mov64_add64_exit ≡ ok mov64_add64_exit_bytes) ↔ (
    (xs : List JitInstruction) × (lower_all 0 mov64_add64_exit ≡ ok xs)
    × (compile xs ≡ ok mov64_add64_exit_bytes))
compile_sbpf_iff_example = compile_sbpf_iff mov64_add64_exit mov64_add64_exit_bytes

emit_jit_instruction-select_example :
    emit_jit_instruction (jump_immediate s64 equal 2 (pos 5) 0) (new 4 0)
    ≡ and_then (lift (select (jump_immediate s64 equal 2 (pos 5) 0)) (new 4 0)) emit_selected
emit_jit_instruction-select_example =
    emit_jit_instruction-select (jump_immediate s64 equal 2 (pos 5) 0) (new 4 0)

abbrev branch_back : Insn
branch_back = record { ptr = 0; opc = 0x55; dst = 3; src = 0; off = negsuc 1; imm = negsuc 41 }

branch_back-IsEncodable : IsEncodable branch_back
branch_back-IsEncodable = record {
  opc = omega arith;
  dst = omega arith;
  src = omega arith;
  off = (omega arith, omega arith);
  imm = (omega arith, omega arith);
}

get_insn-program_bytes_example :
    get_insn (program_bytes (branch_back ∷ branch_back ∷ [])) 1
    ≡ some (record branch_back { ptr = 1 })
get_insn-program_bytes_example =
    get_insn-program_bytes (branch_back ∷ branch_back ∷ []) 1 branch_back
      (branch_back-IsEncodable, (branch_back-IsEncodable, tt)) (omega arith) refl
