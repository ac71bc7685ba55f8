-- ===== src/Ebpf/Opcodes/Jump.antt =====
-- casestudy/sbpf/src/ebpf.rs: the opcodes of the jumps, calls and exit.
use aeneas2isabelle.Prelude.{ℕ, bit_or}
use aeneas2isabelle.Ebpf.Opcodes.{
  bpf_call, bpf_exit, bpf_ja, bpf_jeq, bpf_jge, bpf_jgt, bpf_jle, bpf_jlt, bpf_jmp32, bpf_jmp64,
  bpf_jne, bpf_jset, bpf_jsge, bpf_jsgt, bpf_jsle, bpf_jslt, bpf_k, bpf_x,
}

abbrev pub jeq32_imm : ℕ
jeq32_imm = bit_or (bit_or bpf_jmp32 bpf_k) bpf_jeq

abbrev pub jeq32_reg : ℕ
jeq32_reg = bit_or (bit_or bpf_jmp32 bpf_x) bpf_jeq

abbrev pub jgt32_imm : ℕ
jgt32_imm = bit_or (bit_or bpf_jmp32 bpf_k) bpf_jgt

abbrev pub jgt32_reg : ℕ
jgt32_reg = bit_or (bit_or bpf_jmp32 bpf_x) bpf_jgt

abbrev pub jge32_imm : ℕ
jge32_imm = bit_or (bit_or bpf_jmp32 bpf_k) bpf_jge

abbrev pub jge32_reg : ℕ
jge32_reg = bit_or (bit_or bpf_jmp32 bpf_x) bpf_jge

abbrev pub jlt32_imm : ℕ
jlt32_imm = bit_or (bit_or bpf_jmp32 bpf_k) bpf_jlt

abbrev pub jlt32_reg : ℕ
jlt32_reg = bit_or (bit_or bpf_jmp32 bpf_x) bpf_jlt

abbrev pub jle32_imm : ℕ
jle32_imm = bit_or (bit_or bpf_jmp32 bpf_k) bpf_jle

abbrev pub jle32_reg : ℕ
jle32_reg = bit_or (bit_or bpf_jmp32 bpf_x) bpf_jle

abbrev pub jset32_imm : ℕ
jset32_imm = bit_or (bit_or bpf_jmp32 bpf_k) bpf_jset

abbrev pub jset32_reg : ℕ
jset32_reg = bit_or (bit_or bpf_jmp32 bpf_x) bpf_jset

abbrev pub jne32_imm : ℕ
jne32_imm = bit_or (bit_or bpf_jmp32 bpf_k) bpf_jne

abbrev pub jne32_reg : ℕ
jne32_reg = bit_or (bit_or bpf_jmp32 bpf_x) bpf_jne

abbrev pub jsgt32_imm : ℕ
jsgt32_imm = bit_or (bit_or bpf_jmp32 bpf_k) bpf_jsgt

abbrev pub jsgt32_reg : ℕ
jsgt32_reg = bit_or (bit_or bpf_jmp32 bpf_x) bpf_jsgt

abbrev pub jsge32_imm : ℕ
jsge32_imm = bit_or (bit_or bpf_jmp32 bpf_k) bpf_jsge

abbrev pub jsge32_reg : ℕ
jsge32_reg = bit_or (bit_or bpf_jmp32 bpf_x) bpf_jsge

abbrev pub jslt32_imm : ℕ
jslt32_imm = bit_or (bit_or bpf_jmp32 bpf_k) bpf_jslt

abbrev pub jslt32_reg : ℕ
jslt32_reg = bit_or (bit_or bpf_jmp32 bpf_x) bpf_jslt

abbrev pub jsle32_imm : ℕ
jsle32_imm = bit_or (bit_or bpf_jmp32 bpf_k) bpf_jsle

abbrev pub jsle32_reg : ℕ
jsle32_reg = bit_or (bit_or bpf_jmp32 bpf_x) bpf_jsle

abbrev pub ja : ℕ
ja = bit_or bpf_jmp64 bpf_ja

abbrev pub jeq64_imm : ℕ
jeq64_imm = bit_or (bit_or bpf_jmp64 bpf_k) bpf_jeq

abbrev pub jeq64_reg : ℕ
jeq64_reg = bit_or (bit_or bpf_jmp64 bpf_x) bpf_jeq

abbrev pub jgt64_imm : ℕ
jgt64_imm = bit_or (bit_or bpf_jmp64 bpf_k) bpf_jgt

abbrev pub jgt64_reg : ℕ
jgt64_reg = bit_or (bit_or bpf_jmp64 bpf_x) bpf_jgt

abbrev pub jge64_imm : ℕ
jge64_imm = bit_or (bit_or bpf_jmp64 bpf_k) bpf_jge

abbrev pub jge64_reg : ℕ
jge64_reg = bit_or (bit_or bpf_jmp64 bpf_x) bpf_jge

abbrev pub jlt64_imm : ℕ
jlt64_imm = bit_or (bit_or bpf_jmp64 bpf_k) bpf_jlt

abbrev pub jlt64_reg : ℕ
jlt64_reg = bit_or (bit_or bpf_jmp64 bpf_x) bpf_jlt

abbrev pub jle64_imm : ℕ
jle64_imm = bit_or (bit_or bpf_jmp64 bpf_k) bpf_jle

abbrev pub jle64_reg : ℕ
jle64_reg = bit_or (bit_or bpf_jmp64 bpf_x) bpf_jle

abbrev pub jset64_imm : ℕ
jset64_imm = bit_or (bit_or bpf_jmp64 bpf_k) bpf_jset

abbrev pub jset64_reg : ℕ
jset64_reg = bit_or (bit_or bpf_jmp64 bpf_x) bpf_jset

abbrev pub jne64_imm : ℕ
jne64_imm = bit_or (bit_or bpf_jmp64 bpf_k) bpf_jne

abbrev pub jne64_reg : ℕ
jne64_reg = bit_or (bit_or bpf_jmp64 bpf_x) bpf_jne

abbrev pub jsgt64_imm : ℕ
jsgt64_imm = bit_or (bit_or bpf_jmp64 bpf_k) bpf_jsgt

abbrev pub jsgt64_reg : ℕ
jsgt64_reg = bit_or (bit_or bpf_jmp64 bpf_x) bpf_jsgt

abbrev pub jsge64_imm : ℕ
jsge64_imm = bit_or (bit_or bpf_jmp64 bpf_k) bpf_jsge

abbrev pub jsge64_reg : ℕ
jsge64_reg = bit_or (bit_or bpf_jmp64 bpf_x) bpf_jsge

abbrev pub jslt64_imm : ℕ
jslt64_imm = bit_or (bit_or bpf_jmp64 bpf_k) bpf_jslt

abbrev pub jslt64_reg : ℕ
jslt64_reg = bit_or (bit_or bpf_jmp64 bpf_x) bpf_jslt

abbrev pub jsle64_imm : ℕ
jsle64_imm = bit_or (bit_or bpf_jmp64 bpf_k) bpf_jsle

abbrev pub jsle64_reg : ℕ
jsle64_reg = bit_or (bit_or bpf_jmp64 bpf_x) bpf_jsle

abbrev pub call_imm : ℕ
call_imm = bit_or bpf_jmp64 bpf_call

abbrev pub call_reg : ℕ
call_reg = bit_or (bit_or bpf_jmp64 bpf_x) bpf_call

abbrev pub exit : ℕ
exit = bit_or bpf_jmp64 bpf_exit
