-- ===== src/Builder.antt =====
-- casestudy/sbpf/src/insn_builder.rs: programs built instruction by instruction. The structures
-- `Move`, `Pqr`, `SwapBytes`, `Load`, `Store`, `Jump`, `Jump32`, `Hor64`, `FunctionCall` and `Exit`
-- are the constructors of `Instruction`, with their fields; a structure that is under construction,
-- with its instruction record and the code that it borrows, is a `Building`.
pub mod Reads
pub mod Methods
pub mod Named
use aeneas2isabelle.Prelude.{
  ℕ, ◌*◌, ◌/◌, ◌%◌, ◌^◌, Bool, true, false, ◌&&◌, List, [], ◌∷◌, ◌++◌, ◌==◌, if◌then◌else◌, bit_or,
}
use aeneas2isabelle.Prelude.Int.{ℤ, pos, wrap}
use aeneas2isabelle.Ebpf.Opcodes.{
  bpf_1b, bpf_2b, bpf_4b, bpf_8b, bpf_add, bpf_alu32_load, bpf_alu64_store, bpf_and, bpf_arsh,
  bpf_b, bpf_call, bpf_div, bpf_dw, bpf_exit, bpf_h, bpf_imm, bpf_ja, bpf_jeq, bpf_jge, bpf_jgt,
  bpf_jle, bpf_jlt, bpf_jmp32, bpf_jmp64, bpf_jne, bpf_jset, bpf_jsge, bpf_jsgt, bpf_jsle, bpf_jslt,
  bpf_k, bpf_ld, bpf_ldx, bpf_lmul, bpf_lsh, bpf_mem, bpf_mod, bpf_mov, bpf_mul, bpf_neg, bpf_or,
  bpf_pqr, bpf_rsh, bpf_sdiv, bpf_shmul, bpf_srem, bpf_st, bpf_stx, bpf_sub, bpf_udiv, bpf_uhmul,
  bpf_urem, bpf_w, bpf_x, bpf_xor,
}
use aeneas2isabelle.Ebpf.Opcodes.Alu.{hor64_imm, le, be}
use aeneas2isabelle.Ebpf.Insn.{Insn}
use aeneas2isabelle.Program.{
  SbpfVersion, move_memory_instruction_classes, callx_uses_src_reg, callx_uses_dst_reg,
  static_syscalls,
}

pub data Source : Type 0 where
  from_imm from_reg : Source

abbrev pub source_bits : Source → ℕ
source_bits from_imm = bpf_imm
source_bits from_reg = bpf_x

pub data OpBits : Type 0 where
  add sub mul div bit_or_op bit_and_op l_shift r_shift negate modulo bit_xor mov : OpBits
  sign_r_shift : OpBits

abbrev pub op_bits : OpBits → ℕ
op_bits add = bpf_add
op_bits sub = bpf_sub
op_bits mul = bpf_mul
op_bits div = bpf_div
op_bits bit_or_op = bpf_or
op_bits bit_and_op = bpf_and
op_bits l_shift = bpf_lsh
op_bits r_shift = bpf_rsh
op_bits negate = bpf_neg
op_bits modulo = bpf_mod
op_bits bit_xor = bpf_xor
op_bits mov = bpf_mov
op_bits sign_r_shift = bpf_arsh

pub data PqrOp : Type 0 where
  lmul uhmul udiv urem shmul sdiv srem : PqrOp

abbrev pub pqr_bits : PqrOp → ℕ
pqr_bits lmul = bpf_lmul
pqr_bits uhmul = bpf_uhmul
pqr_bits udiv = bpf_udiv
pqr_bits urem = bpf_urem
pqr_bits shmul = bpf_shmul
pqr_bits sdiv = bpf_sdiv
pqr_bits srem = bpf_srem

pub data Arch : Type 0 where
  x64 x32 : Arch

abbrev pub arch_bits : Arch → ℕ
arch_bits x64 = bpf_alu64_store
arch_bits x32 = bpf_alu32_load

pub data Endian : Type 0 where
  little big : Endian

abbrev pub endian_bits : Endian → ℕ
endian_bits little = le
endian_bits big = be

pub data MemSize : Type 0 where
  byte half_word word double_word : MemSize

abbrev pub mem_size_bits : MemSize → ℕ
mem_size_bits byte = bpf_b
mem_size_bits half_word = bpf_h
mem_size_bits word = bpf_w
mem_size_bits double_word = bpf_dw

abbrev pub to_v2_encoding : MemSize → ℕ
to_v2_encoding byte = bpf_1b
to_v2_encoding half_word = bpf_2b
to_v2_encoding word = bpf_4b
to_v2_encoding double_word = bpf_8b

abbrev pub bpf_abs : ℕ
bpf_abs = 0x20

abbrev pub bpf_ind : ℕ
bpf_ind = 0x40

pub data Addressing : Type 0 where
  by_imm by_abs by_ind by_mem : Addressing

abbrev pub addressing_bits : Addressing → ℕ
addressing_bits by_imm = bpf_imm
addressing_bits by_abs = bpf_abs
addressing_bits by_ind = bpf_ind
addressing_bits by_mem = bpf_mem

pub data Cond : Type 0 where
  always equals greater greater_equals lower lower_equals bits_and not_equals : Cond
  greater_signed greater_equals_signed lower_signed lower_equals_signed : Cond

abbrev pub cond_bits : Cond → ℕ
cond_bits always = bpf_ja
cond_bits equals = bpf_jeq
cond_bits greater = bpf_jgt
cond_bits greater_equals = bpf_jge
cond_bits lower = bpf_jlt
cond_bits lower_equals = bpf_jle
cond_bits bits_and = bpf_jset
cond_bits not_equals = bpf_jne
cond_bits greater_signed = bpf_jsgt
cond_bits greater_equals_signed = bpf_jsge
cond_bits lower_signed = bpf_jslt
cond_bits lower_equals_signed = bpf_jsle

pub data Instruction : Type 0 where
  move : OpBits → Source → Arch → Instruction
  pqr : PqrOp → Source → Arch → Instruction
  swap_bytes : Endian → Instruction
  load_from : Addressing → MemSize → ℕ → Instruction
  store_to : MemSize → ℕ → Instruction
  jump : Cond → Source → Instruction
  jump32 : Cond → Source → Instruction
  hor64 : Instruction
  function_call : Bool → Instruction
  exit : Instruction

pub record BpfCode : Type 0 where
  pub instructions : List ℕ
  pub sbpf_version : SbpfVersion

pub record Building : Type 0 where
  pub bpf_code : BpfCode
  pub instruction : Instruction
  pub insn : Insn

abbrev pub new : SbpfVersion → BpfCode
new sbpf_version = record { instructions = []; sbpf_version = sbpf_version }

-- `Insn::default()`.
abbrev pub default_insn : Insn
default_insn = record { ptr = 0; opc = 0; dst = 0; src = 0; off = pos 0; imm = pos 0 }

-- The arguments with which the methods of `BpfCode` fill the structures.
abbrev pub load : MemSize → Instruction
load size = load_from by_imm size bpf_ld

abbrev pub load_abs : MemSize → Instruction
load_abs size = load_from by_abs size bpf_ld

abbrev pub load_ind : MemSize → Instruction
load_ind size = load_from by_ind size bpf_ld

abbrev pub load_x : MemSize → Instruction
load_x size = load_from by_mem size bpf_ldx

abbrev pub store : MemSize → Instruction
store size = store_to size bpf_imm

abbrev pub store_x : MemSize → Instruction
store_x size = store_to size (bit_or bpf_mem bpf_stx)

abbrev pub negate_of : Arch → Instruction
negate_of arch = move negate from_imm arch

abbrev pub jump_unconditional : Instruction
jump_unconditional = jump always from_imm

abbrev is_by_mem : Addressing → Bool
is_by_mem by_mem = true
is_by_mem _ = false

abbrev pub load_opcode : SbpfVersion → Addressing → MemSize → ℕ → ℕ
load_opcode version addressing size source =
    if move_memory_instruction_classes version && (is_by_mem addressing && source == bpf_ldx)
    then bit_or (bit_or bpf_alu32_load bpf_x) (to_v2_encoding size)
    else bit_or (bit_or (addressing_bits addressing) (mem_size_bits size)) source

abbrev pub store_opcode : SbpfVersion → MemSize → ℕ → ℕ
store_opcode version size source =
    if move_memory_instruction_classes version
    then bit_or (bit_or bpf_alu64_store (if source == bpf_imm then bpf_k else bpf_x))
        (to_v2_encoding size)
    else bit_or (bit_or (bit_or bpf_mem bpf_st) (mem_size_bits size)) source

abbrev pub pqr_size_bit : Arch → ℕ
pqr_size_bit x64 = bpf_b
pqr_size_bit x32 = 0

abbrev pub move_opcode : OpBits → Source → Arch → ℕ
move_opcode op source arch = bit_or (bit_or (op_bits op) (source_bits source)) (arch_bits arch)

abbrev pub pqr_opcode : PqrOp → Source → Arch → ℕ
pqr_opcode op source arch =
    bit_or (bit_or (bit_or bpf_pqr (pqr_bits op)) (source_bits source)) (pqr_size_bit arch)

abbrev pub jump_opcode : Cond → Source → ℕ
jump_opcode cond source = bit_or (bit_or (cond_bits cond) (source_bits source)) bpf_jmp64

abbrev pub jump32_opcode : Cond → Source → ℕ
jump32_opcode cond source = bit_or (bit_or (cond_bits cond) (source_bits source)) bpf_jmp32

abbrev pub call_opcode : Bool → ℕ
call_opcode is_reg =
    if is_reg then bit_or (bit_or bpf_call bpf_x) bpf_jmp64 else bit_or bpf_call bpf_jmp64

abbrev pub exit_opcode : ℕ
exit_opcode = bit_or bpf_exit bpf_jmp64

unfoldable pub opt_code_byte : SbpfVersion → Instruction → ℕ
opt_code_byte version (move op source arch) = move_opcode op source arch
opt_code_byte version (pqr op source arch) = pqr_opcode op source arch
opt_code_byte version (swap_bytes endian) = endian_bits endian
opt_code_byte version (load_from addressing size source) =
    load_opcode version addressing size source
opt_code_byte version (store_to size source) = store_opcode version size source
opt_code_byte version (jump cond source) = jump_opcode cond source
opt_code_byte version (jump32 cond source) = jump32_opcode cond source
opt_code_byte version hor64 = hor64_imm
opt_code_byte version (function_call is_reg) = call_opcode is_reg
opt_code_byte version exit = exit_opcode

-- `get_src` and `get_dst`, which `FunctionCall` overrides.
unfoldable pub get_src : SbpfVersion → Instruction → Insn → ℕ
get_src version (function_call true) insn =
    if callx_uses_src_reg version then insn.src else if callx_uses_dst_reg version then 0 else 0
get_src version (function_call false) insn = if static_syscalls version then insn.src else 0
get_src version _ insn = insn.src

unfoldable pub get_dst : SbpfVersion → Instruction → Insn → ℕ
get_dst version (function_call true) insn = if callx_uses_dst_reg version then insn.dst else 0
get_dst version (function_call false) insn = 0
get_dst version _ insn = insn.dst

abbrev pub set_dst : Building → ℕ → Building
set_dst b dst = record b { insn = record b.insn { dst = dst } }

abbrev pub set_src : Building → ℕ → Building
set_src b src = record b { insn = record b.insn { src = src } }

abbrev pub set_off : Building → ℤ → Building
set_off b off = record b { insn = record b.insn { off = off } }

abbrev pub set_imm : Building → ℤ → Building
set_imm b value = record b { insn = record b.insn { imm = value } }

unfoldable pub into_bytes : Building → List ℕ
unfolding opt_code_byte get_src get_dst
into_bytes b =
    opt_code_byte b.bpf_code.sbpf_version b.instruction
    ∷ bit_or (get_src b.bpf_code.sbpf_version b.instruction b.insn * 16 % 256)
        (get_dst b.bpf_code.sbpf_version b.instruction b.insn)
    ∷ wrap (2 ^ 16) b.insn.off % 256
    ∷ wrap (2 ^ 16) b.insn.off / 2 ^ 8 % 256
    ∷ wrap (2 ^ 64) b.insn.imm % 256
    ∷ wrap (2 ^ 64) b.insn.imm / 2 ^ 8 % 256
    ∷ wrap (2 ^ 64) b.insn.imm / 2 ^ 16 % 256
    ∷ wrap (2 ^ 64) b.insn.imm / 2 ^ 24 % 256
    ∷ []

unfoldable pub push : Building → BpfCode
unfolding into_bytes
push b = record b.bpf_code { instructions = b.bpf_code.instructions ++ into_bytes b }
