-- ===== src/Ebpf/Opcodes/Memory.antt =====
-- casestudy/sbpf/src/ebpf.rs: the opcodes of the loads and stores.
use aeneas2isabelle.Prelude.{ℕ, bit_or}
use aeneas2isabelle.Ebpf.Opcodes.{
  bpf_1b, bpf_2b, bpf_4b, bpf_8b, bpf_alu32_load, bpf_alu64_store, bpf_b, bpf_dw, bpf_h, bpf_imm,
  bpf_k, bpf_ld, bpf_ldx, bpf_mem, bpf_st, bpf_stx, bpf_w, bpf_x,
}

abbrev pub ld_dw_imm : ℕ
ld_dw_imm = bit_or (bit_or bpf_ld bpf_imm) bpf_dw

abbrev pub ld_b_reg : ℕ
ld_b_reg = bit_or (bit_or bpf_ldx bpf_mem) bpf_b

abbrev pub ld_h_reg : ℕ
ld_h_reg = bit_or (bit_or bpf_ldx bpf_mem) bpf_h

abbrev pub ld_w_reg : ℕ
ld_w_reg = bit_or (bit_or bpf_ldx bpf_mem) bpf_w

abbrev pub ld_dw_reg : ℕ
ld_dw_reg = bit_or (bit_or bpf_ldx bpf_mem) bpf_dw

abbrev pub st_b_imm : ℕ
st_b_imm = bit_or (bit_or bpf_st bpf_mem) bpf_b

abbrev pub st_h_imm : ℕ
st_h_imm = bit_or (bit_or bpf_st bpf_mem) bpf_h

abbrev pub st_w_imm : ℕ
st_w_imm = bit_or (bit_or bpf_st bpf_mem) bpf_w

abbrev pub st_dw_imm : ℕ
st_dw_imm = bit_or (bit_or bpf_st bpf_mem) bpf_dw

abbrev pub st_b_reg : ℕ
st_b_reg = bit_or (bit_or bpf_stx bpf_mem) bpf_b

abbrev pub st_h_reg : ℕ
st_h_reg = bit_or (bit_or bpf_stx bpf_mem) bpf_h

abbrev pub st_w_reg : ℕ
st_w_reg = bit_or (bit_or bpf_stx bpf_mem) bpf_w

abbrev pub st_dw_reg : ℕ
st_dw_reg = bit_or (bit_or bpf_stx bpf_mem) bpf_dw

abbrev pub ld_1b_reg : ℕ
ld_1b_reg = bit_or (bit_or bpf_alu32_load bpf_x) bpf_1b

abbrev pub ld_2b_reg : ℕ
ld_2b_reg = bit_or (bit_or bpf_alu32_load bpf_x) bpf_2b

abbrev pub ld_4b_reg : ℕ
ld_4b_reg = bit_or (bit_or bpf_alu32_load bpf_x) bpf_4b

abbrev pub ld_8b_reg : ℕ
ld_8b_reg = bit_or (bit_or bpf_alu32_load bpf_x) bpf_8b

abbrev pub st_1b_imm : ℕ
st_1b_imm = bit_or (bit_or bpf_alu64_store bpf_k) bpf_1b

abbrev pub st_2b_imm : ℕ
st_2b_imm = bit_or (bit_or bpf_alu64_store bpf_k) bpf_2b

abbrev pub st_4b_imm : ℕ
st_4b_imm = bit_or (bit_or bpf_alu64_store bpf_k) bpf_4b

abbrev pub st_8b_imm : ℕ
st_8b_imm = bit_or (bit_or bpf_alu64_store bpf_k) bpf_8b

abbrev pub st_1b_reg : ℕ
st_1b_reg = bit_or (bit_or bpf_alu64_store bpf_x) bpf_1b

abbrev pub st_2b_reg : ℕ
st_2b_reg = bit_or (bit_or bpf_alu64_store bpf_x) bpf_2b

abbrev pub st_4b_reg : ℕ
st_4b_reg = bit_or (bit_or bpf_alu64_store bpf_x) bpf_4b

abbrev pub st_8b_reg : ℕ
st_8b_reg = bit_or (bit_or bpf_alu64_store bpf_x) bpf_8b
