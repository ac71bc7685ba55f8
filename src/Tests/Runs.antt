-- ===== src/Tests/Runs.antt =====
-- The unit tests of casestudy/sbpf/src/safe_mode/x86.rs and casestudy/sbpf/src/safe_mode/jit.rs.
use aeneas2isabelle.Prelude.{◌≡◌, refl, List, [], ◌∷◌}
use aeneas2isabelle.Prelude.Int.{pos, negsuc}
use aeneas2isabelle.X86.Types.{s64, rax, rbx, rbp, r9, offset}
use aeneas2isabelle.X86.Encode.{encode}
use aeneas2isabelle.X86.Instruction
use aeneas2isabelle.Ebpf.Insn.{Insn}
use aeneas2isabelle.Jit.Types.{
  JitInstruction, load_immediate, alu_immediate, add, jump, return, invalid_register,
  unsupported_instruction,
}
use aeneas2isabelle.Jit.Result.{ok, err}
use aeneas2isabelle.Jit.Compile.{compile, compile_sbpf}
use aeneas2isabelle.Jit.State.{
  resolve_jumps, resolve_jump, set_program_counter, relative_to_target_pc, emit_ins,
}
use aeneas2isabelle.Jit.Registers.{mapped_register, alu_encoding}
use aeneas2isabelle.Jit.Emit.{emit_jit_instruction}
use aeneas2isabelle.Jit.Lower.{lower_sbpf_instruction}
use aeneas2isabelle.X86.Types.{register_code}
use aeneas2isabelle.Prelude.Words.{le_bytes}

encodes_register_move : encode (Instruction.mov s64 rax rbx) ≡ 0x48 ∷ 0x89 ∷ 0xc3 ∷ []
unfolding encode Instruction.mov register_code le_bytes
encodes_register_move = refl

encodes_positive_immediate :
    encode (Instruction.load_immediate rax (pos 1)) ≡ 0xb8 ∷ 1 ∷ 0 ∷ 0 ∷ 0 ∷ []
unfolding encode Instruction.load_immediate register_code le_bytes
encodes_positive_immediate = refl

encodes_indirect_load :
    encode (Instruction.load s64 rbp r9 (offset (negsuc 7))) ≡ 0x4c ∷ 0x8b ∷ 0x4d ∷ 0xf8 ∷ []
unfolding encode Instruction.load register_code le_bytes
encodes_indirect_load = refl

abbrev arithmetic : List JitInstruction
arithmetic = load_immediate s64 0 (pos 1) ∷ alu_immediate s64 add 0 (pos 2) ∷ return ∷ []

compiles_arithmetic_and_return :
    compile arithmetic ≡ ok (0xb8 ∷ 1 ∷ 0 ∷ 0 ∷ 0 ∷ 0x48 ∷ 0x81 ∷ 0xc0 ∷ 2 ∷ 0 ∷ 0 ∷ 0 ∷ 0xc3 ∷ [])
unfolding compile emit_jit_instruction mapped_register alu_encoding emit_ins resolve_jumps
    set_program_counter relative_to_target_pc encode Instruction.load_immediate
    Instruction.alu_immediate Instruction.return_near register_code le_bytes
compiles_arithmetic_and_return = refl

resolves_forward_branch :
    compile (jump 2 ∷ load_immediate s64 0 (pos 7) ∷ return ∷ [])
    ≡ ok (0xe9 ∷ 5 ∷ 0 ∷ 0 ∷ 0 ∷ 0xb8 ∷ 7 ∷ 0 ∷ 0 ∷ 0 ∷ 0xc3 ∷ [])
unfolding compile emit_jit_instruction mapped_register emit_ins resolve_jumps resolve_jump
    set_program_counter relative_to_target_pc encode Instruction.load_immediate
    Instruction.jump_immediate Instruction.return_near register_code le_bytes
resolves_forward_branch = refl

rejects_invalid_register : compile (load_immediate s64 11 (pos 0) ∷ []) ≡ err invalid_register
unfolding compile emit_jit_instruction mapped_register set_program_counter
rejects_invalid_register = refl

abbrev pub mov64_add64_exit : List Insn
mov64_add64_exit =
    record { ptr = 0; opc = 0xb7; dst = 0; src = 0; off = pos 0; imm = pos 1 }
    ∷ record { ptr = 0; opc = 0x07; dst = 0; src = 0; off = pos 0; imm = pos 2 }
    ∷ record { ptr = 0; opc = 0x95; dst = 0; src = 0; off = pos 0; imm = pos 0 }
    ∷ []

compiles_decoded_sbpf :
    compile_sbpf mov64_add64_exit
    ≡ ok (0xb8 ∷ 1 ∷ 0 ∷ 0 ∷ 0 ∷ 0x48 ∷ 0x81 ∷ 0xc0 ∷ 2 ∷ 0 ∷ 0 ∷ 0 ∷ 0xc3 ∷ [])
unfolding compile_sbpf lower_sbpf_instruction emit_jit_instruction mapped_register alu_encoding
    emit_ins resolve_jumps set_program_counter relative_to_target_pc encode
    Instruction.load_immediate Instruction.alu_immediate Instruction.return_near register_code
    le_bytes
compiles_decoded_sbpf = refl

rejects_unsupported_memory_instruction :
    compile_sbpf (record { ptr = 0; opc = 0x79; dst = 0; src = 0; off = pos 0; imm = pos 0 } ∷ [])
    ≡ err unsupported_instruction
unfolding compile_sbpf lower_sbpf_instruction set_program_counter
rejects_unsupported_memory_instruction = refl
