-- ===== src/Ebpf/Opcodes.antt =====
-- casestudy/sbpf/src/ebpf.rs: the operation classes, operation codes and masks. The opcodes that
-- they make up are in the modules below.
pub mod Alu
pub mod Jump
pub mod Memory
pub mod Pqr
use aeneas2isabelle.Prelude.{ℕ}

abbrev pub insn_size : ℕ
insn_size = 8

abbrev pub bpf_alu32_load : ℕ
bpf_alu32_load = 0x04

abbrev pub bpf_jmp64 : ℕ
bpf_jmp64 = 0x05

abbrev pub bpf_jmp32 : ℕ
bpf_jmp32 = 0x06

abbrev pub bpf_alu64_store : ℕ
bpf_alu64_store = 0x07

abbrev pub bpf_x : ℕ
bpf_x = 0x08

abbrev pub bpf_add : ℕ
bpf_add = 0x00

abbrev pub bpf_sub : ℕ
bpf_sub = 0x10

abbrev pub bpf_or : ℕ
bpf_or = 0x40

abbrev pub bpf_and : ℕ
bpf_and = 0x50

abbrev pub bpf_lsh : ℕ
bpf_lsh = 0x60

abbrev pub bpf_rsh : ℕ
bpf_rsh = 0x70

abbrev pub bpf_xor : ℕ
bpf_xor = 0xa0

abbrev pub bpf_mov : ℕ
bpf_mov = 0xb0

abbrev pub bpf_arsh : ℕ
bpf_arsh = 0xc0

abbrev pub bpf_ja : ℕ
bpf_ja = 0x00

abbrev pub bpf_jeq : ℕ
bpf_jeq = 0x10

abbrev pub bpf_jgt : ℕ
bpf_jgt = 0x20

abbrev pub bpf_jge : ℕ
bpf_jge = 0x30

abbrev pub bpf_jset : ℕ
bpf_jset = 0x40

abbrev pub bpf_jne : ℕ
bpf_jne = 0x50

abbrev pub bpf_jsgt : ℕ
bpf_jsgt = 0x60

abbrev pub bpf_jsge : ℕ
bpf_jsge = 0x70

abbrev pub bpf_exit : ℕ
bpf_exit = 0x90

abbrev pub bpf_jlt : ℕ
bpf_jlt = 0xa0

abbrev pub bpf_jle : ℕ
bpf_jle = 0xb0

abbrev pub bpf_jslt : ℕ
bpf_jslt = 0xc0

abbrev pub bpf_jsle : ℕ
bpf_jsle = 0xd0

abbrev pub bpf_cls_mask : ℕ
bpf_cls_mask = 0x07

abbrev pub bpf_alu_op_mask : ℕ
bpf_alu_op_mask = 0xf0

abbrev pub frame_ptr_reg : ℕ
frame_ptr_reg = 10

abbrev pub bpf_ld : ℕ
bpf_ld = 0x00

abbrev pub bpf_ldx : ℕ
bpf_ldx = 0x01

abbrev pub bpf_st : ℕ
bpf_st = 0x02

abbrev pub bpf_stx : ℕ
bpf_stx = 0x03

abbrev pub bpf_pqr : ℕ
bpf_pqr = 0x06

abbrev pub bpf_w : ℕ
bpf_w = 0x00

abbrev pub bpf_h : ℕ
bpf_h = 0x08

abbrev pub bpf_b : ℕ
bpf_b = 0x10

abbrev pub bpf_dw : ℕ
bpf_dw = 0x18

abbrev pub bpf_1b : ℕ
bpf_1b = 0x20

abbrev pub bpf_2b : ℕ
bpf_2b = 0x30

abbrev pub bpf_4b : ℕ
bpf_4b = 0x80

abbrev pub bpf_8b : ℕ
bpf_8b = 0x90

abbrev pub bpf_imm : ℕ
bpf_imm = 0x00

abbrev pub bpf_mem : ℕ
bpf_mem = 0x60

abbrev pub bpf_k : ℕ
bpf_k = 0x00

abbrev pub bpf_mul : ℕ
bpf_mul = 0x20

abbrev pub bpf_div : ℕ
bpf_div = 0x30

abbrev pub bpf_neg : ℕ
bpf_neg = 0x80

abbrev pub bpf_mod : ℕ
bpf_mod = 0x90

abbrev pub bpf_end : ℕ
bpf_end = 0xd0

abbrev pub bpf_hor : ℕ
bpf_hor = 0xf0

abbrev pub bpf_uhmul : ℕ
bpf_uhmul = 0x20

abbrev pub bpf_udiv : ℕ
bpf_udiv = 0x40

abbrev pub bpf_urem : ℕ
bpf_urem = 0x60

abbrev pub bpf_lmul : ℕ
bpf_lmul = 0x80

abbrev pub bpf_shmul : ℕ
bpf_shmul = 0xa0

abbrev pub bpf_sdiv : ℕ
bpf_sdiv = 0xc0

abbrev pub bpf_srem : ℕ
bpf_srem = 0xe0

abbrev pub bpf_call : ℕ
bpf_call = 0x80
