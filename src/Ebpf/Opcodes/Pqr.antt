-- ===== src/Ebpf/Opcodes/Pqr.antt =====
-- casestudy/sbpf/src/ebpf.rs: the opcodes of the products, quotients and remainders.
use aeneas2isabelle.Prelude.{ℕ, bit_or}
use aeneas2isabelle.Ebpf.Opcodes.{
  bpf_b, bpf_k, bpf_lmul, bpf_pqr, bpf_sdiv, bpf_shmul, bpf_srem, bpf_udiv, bpf_uhmul, bpf_urem,
  bpf_x,
}

abbrev pub lmul32_imm : ℕ
lmul32_imm = bit_or (bit_or bpf_pqr bpf_k) bpf_lmul

abbrev pub lmul32_reg : ℕ
lmul32_reg = bit_or (bit_or bpf_pqr bpf_x) bpf_lmul

abbrev pub udiv32_imm : ℕ
udiv32_imm = bit_or (bit_or bpf_pqr bpf_k) bpf_udiv

abbrev pub udiv32_reg : ℕ
udiv32_reg = bit_or (bit_or bpf_pqr bpf_x) bpf_udiv

abbrev pub urem32_imm : ℕ
urem32_imm = bit_or (bit_or bpf_pqr bpf_k) bpf_urem

abbrev pub urem32_reg : ℕ
urem32_reg = bit_or (bit_or bpf_pqr bpf_x) bpf_urem

abbrev pub sdiv32_imm : ℕ
sdiv32_imm = bit_or (bit_or bpf_pqr bpf_k) bpf_sdiv

abbrev pub sdiv32_reg : ℕ
sdiv32_reg = bit_or (bit_or bpf_pqr bpf_x) bpf_sdiv

abbrev pub srem32_imm : ℕ
srem32_imm = bit_or (bit_or bpf_pqr bpf_k) bpf_srem

abbrev pub srem32_reg : ℕ
srem32_reg = bit_or (bit_or bpf_pqr bpf_x) bpf_srem

abbrev pub lmul64_imm : ℕ
lmul64_imm = bit_or (bit_or (bit_or bpf_pqr bpf_b) bpf_k) bpf_lmul

abbrev pub lmul64_reg : ℕ
lmul64_reg = bit_or (bit_or (bit_or bpf_pqr bpf_b) bpf_x) bpf_lmul

abbrev pub uhmul64_imm : ℕ
uhmul64_imm = bit_or (bit_or (bit_or bpf_pqr bpf_b) bpf_k) bpf_uhmul

abbrev pub uhmul64_reg : ℕ
uhmul64_reg = bit_or (bit_or (bit_or bpf_pqr bpf_b) bpf_x) bpf_uhmul

abbrev pub udiv64_imm : ℕ
udiv64_imm = bit_or (bit_or (bit_or bpf_pqr bpf_b) bpf_k) bpf_udiv

abbrev pub udiv64_reg : ℕ
udiv64_reg = bit_or (bit_or (bit_or bpf_pqr bpf_b) bpf_x) bpf_udiv

abbrev pub urem64_imm : ℕ
urem64_imm = bit_or (bit_or (bit_or bpf_pqr bpf_b) bpf_k) bpf_urem

abbrev pub urem64_reg : ℕ
urem64_reg = bit_or (bit_or (bit_or bpf_pqr bpf_b) bpf_x) bpf_urem

abbrev pub shmul64_imm : ℕ
shmul64_imm = bit_or (bit_or (bit_or bpf_pqr bpf_b) bpf_k) bpf_shmul

abbrev pub shmul64_reg : ℕ
shmul64_reg = bit_or (bit_or (bit_or bpf_pqr bpf_b) bpf_x) bpf_shmul

abbrev pub sdiv64_imm : ℕ
sdiv64_imm = bit_or (bit_or (bit_or bpf_pqr bpf_b) bpf_k) bpf_sdiv

abbrev pub sdiv64_reg : ℕ
sdiv64_reg = bit_or (bit_or (bit_or bpf_pqr bpf_b) bpf_x) bpf_sdiv

abbrev pub srem64_imm : ℕ
srem64_imm = bit_or (bit_or (bit_or bpf_pqr bpf_b) bpf_k) bpf_srem

abbrev pub srem64_reg : ℕ
srem64_reg = bit_or (bit_or (bit_or bpf_pqr bpf_b) bpf_x) bpf_srem
