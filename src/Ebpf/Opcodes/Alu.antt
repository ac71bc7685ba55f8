-- ===== src/Ebpf/Opcodes/Alu.antt =====
-- casestudy/sbpf/src/ebpf.rs: the opcodes of the arithmetic of 32 and 64 bits.
use aeneas2isabelle.Prelude.{ℕ, bit_or}
use aeneas2isabelle.Ebpf.Opcodes.{
  bpf_add, bpf_alu32_load, bpf_alu64_store, bpf_and, bpf_arsh, bpf_div, bpf_end, bpf_hor, bpf_k,
  bpf_lsh, bpf_mod, bpf_mov, bpf_mul, bpf_neg, bpf_or, bpf_rsh, bpf_sub, bpf_x, bpf_xor,
}

abbrev pub add32_imm : ℕ
add32_imm = bit_or (bit_or bpf_alu32_load bpf_k) bpf_add

abbrev pub add32_reg : ℕ
add32_reg = bit_or (bit_or bpf_alu32_load bpf_x) bpf_add

abbrev pub sub32_imm : ℕ
sub32_imm = bit_or (bit_or bpf_alu32_load bpf_k) bpf_sub

abbrev pub sub32_reg : ℕ
sub32_reg = bit_or (bit_or bpf_alu32_load bpf_x) bpf_sub

abbrev pub mul32_imm : ℕ
mul32_imm = bit_or (bit_or bpf_alu32_load bpf_k) bpf_mul

abbrev pub mul32_reg : ℕ
mul32_reg = bit_or (bit_or bpf_alu32_load bpf_x) bpf_mul

abbrev pub div32_imm : ℕ
div32_imm = bit_or (bit_or bpf_alu32_load bpf_k) bpf_div

abbrev pub div32_reg : ℕ
div32_reg = bit_or (bit_or bpf_alu32_load bpf_x) bpf_div

abbrev pub or32_imm : ℕ
or32_imm = bit_or (bit_or bpf_alu32_load bpf_k) bpf_or

abbrev pub or32_reg : ℕ
or32_reg = bit_or (bit_or bpf_alu32_load bpf_x) bpf_or

abbrev pub and32_imm : ℕ
and32_imm = bit_or (bit_or bpf_alu32_load bpf_k) bpf_and

abbrev pub and32_reg : ℕ
and32_reg = bit_or (bit_or bpf_alu32_load bpf_x) bpf_and

abbrev pub lsh32_imm : ℕ
lsh32_imm = bit_or (bit_or bpf_alu32_load bpf_k) bpf_lsh

abbrev pub lsh32_reg : ℕ
lsh32_reg = bit_or (bit_or bpf_alu32_load bpf_x) bpf_lsh

abbrev pub rsh32_imm : ℕ
rsh32_imm = bit_or (bit_or bpf_alu32_load bpf_k) bpf_rsh

abbrev pub rsh32_reg : ℕ
rsh32_reg = bit_or (bit_or bpf_alu32_load bpf_x) bpf_rsh

abbrev pub neg32 : ℕ
neg32 = bit_or bpf_alu32_load bpf_neg

abbrev pub mod32_imm : ℕ
mod32_imm = bit_or (bit_or bpf_alu32_load bpf_k) bpf_mod

abbrev pub mod32_reg : ℕ
mod32_reg = bit_or (bit_or bpf_alu32_load bpf_x) bpf_mod

abbrev pub xor32_imm : ℕ
xor32_imm = bit_or (bit_or bpf_alu32_load bpf_k) bpf_xor

abbrev pub xor32_reg : ℕ
xor32_reg = bit_or (bit_or bpf_alu32_load bpf_x) bpf_xor

abbrev pub mov32_imm : ℕ
mov32_imm = bit_or (bit_or bpf_alu32_load bpf_k) bpf_mov

abbrev pub mov32_reg : ℕ
mov32_reg = bit_or (bit_or bpf_alu32_load bpf_x) bpf_mov

abbrev pub arsh32_imm : ℕ
arsh32_imm = bit_or (bit_or bpf_alu32_load bpf_k) bpf_arsh

abbrev pub arsh32_reg : ℕ
arsh32_reg = bit_or (bit_or bpf_alu32_load bpf_x) bpf_arsh

abbrev pub le : ℕ
le = bit_or (bit_or bpf_alu32_load bpf_k) bpf_end

abbrev pub be : ℕ
be = bit_or (bit_or bpf_alu32_load bpf_x) bpf_end

abbrev pub add64_imm : ℕ
add64_imm = bit_or (bit_or bpf_alu64_store bpf_k) bpf_add

abbrev pub add64_reg : ℕ
add64_reg = bit_or (bit_or bpf_alu64_store bpf_x) bpf_add

abbrev pub sub64_imm : ℕ
sub64_imm = bit_or (bit_or bpf_alu64_store bpf_k) bpf_sub

abbrev pub sub64_reg : ℕ
sub64_reg = bit_or (bit_or bpf_alu64_store bpf_x) bpf_sub

abbrev pub mul64_imm : ℕ
mul64_imm = bit_or (bit_or bpf_alu64_store bpf_k) bpf_mul

abbrev pub mul64_reg : ℕ
mul64_reg = bit_or (bit_or bpf_alu64_store bpf_x) bpf_mul

abbrev pub div64_imm : ℕ
div64_imm = bit_or (bit_or bpf_alu64_store bpf_k) bpf_div

abbrev pub div64_reg : ℕ
div64_reg = bit_or (bit_or bpf_alu64_store bpf_x) bpf_div

abbrev pub or64_imm : ℕ
or64_imm = bit_or (bit_or bpf_alu64_store bpf_k) bpf_or

abbrev pub or64_reg : ℕ
or64_reg = bit_or (bit_or bpf_alu64_store bpf_x) bpf_or

abbrev pub and64_imm : ℕ
and64_imm = bit_or (bit_or bpf_alu64_store bpf_k) bpf_and

abbrev pub and64_reg : ℕ
and64_reg = bit_or (bit_or bpf_alu64_store bpf_x) bpf_and

abbrev pub lsh64_imm : ℕ
lsh64_imm = bit_or (bit_or bpf_alu64_store bpf_k) bpf_lsh

abbrev pub lsh64_reg : ℕ
lsh64_reg = bit_or (bit_or bpf_alu64_store bpf_x) bpf_lsh

abbrev pub rsh64_imm : ℕ
rsh64_imm = bit_or (bit_or bpf_alu64_store bpf_k) bpf_rsh

abbrev pub rsh64_reg : ℕ
rsh64_reg = bit_or (bit_or bpf_alu64_store bpf_x) bpf_rsh

abbrev pub neg64 : ℕ
neg64 = bit_or bpf_alu64_store bpf_neg

abbrev pub mod64_imm : ℕ
mod64_imm = bit_or (bit_or bpf_alu64_store bpf_k) bpf_mod

abbrev pub mod64_reg : ℕ
mod64_reg = bit_or (bit_or bpf_alu64_store bpf_x) bpf_mod

abbrev pub xor64_imm : ℕ
xor64_imm = bit_or (bit_or bpf_alu64_store bpf_k) bpf_xor

abbrev pub xor64_reg : ℕ
xor64_reg = bit_or (bit_or bpf_alu64_store bpf_x) bpf_xor

abbrev pub mov64_imm : ℕ
mov64_imm = bit_or (bit_or bpf_alu64_store bpf_k) bpf_mov

abbrev pub mov64_reg : ℕ
mov64_reg = bit_or (bit_or bpf_alu64_store bpf_x) bpf_mov

abbrev pub arsh64_imm : ℕ
arsh64_imm = bit_or (bit_or bpf_alu64_store bpf_k) bpf_arsh

abbrev pub arsh64_reg : ℕ
arsh64_reg = bit_or (bit_or bpf_alu64_store bpf_x) bpf_arsh

abbrev pub hor64_imm : ℕ
hor64_imm = bit_or (bit_or bpf_alu64_store bpf_k) bpf_hor
