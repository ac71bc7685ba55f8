-- ===== src/Builder/Methods.antt =====
-- casestudy/sbpf/src/insn_builder.rs: the methods of `BpfCode`, and ebpf.rs: the name of the
-- instruction that each of them is for, where there is one.
use aeneas2isabelle.Prelude.{ℕ, Bool, true, false, Option, none, some}
use aeneas2isabelle.Program.{SbpfVersion, move_memory_instruction_classes}
use aeneas2isabelle.Ebpf.Opcodes.Alu
use aeneas2isabelle.Ebpf.Opcodes.Jump
use aeneas2isabelle.Ebpf.Opcodes.Memory
use aeneas2isabelle.Ebpf.Opcodes.Pqr
use aeneas2isabelle.Builder.{
  Source, from_imm, from_reg, OpBits, PqrOp, lmul, uhmul, udiv, urem, shmul, sdiv, srem, Arch, x64,
  x32, Endian, little, big, MemSize, byte, half_word, word, double_word, Cond, always, equals,
  greater, greater_equals, lower, lower_equals, bits_and, not_equals, greater_signed,
  greater_equals_signed, lower_signed, lower_equals_signed, Instruction,
}
use aeneas2isabelle.Builder

-- `mov_internal` stands for the methods from `add` to `signed_right_shift`, which pass it their own
-- operation.
pub data Method : Type 0 where
  mov_internal : OpBits → Source → Arch → Method
  swap_bytes : Endian → Method
  load load_abs load_ind load_x store store_x : MemSize → Method
  jump_unconditional call call_reg hor64_imm exit : Method
  jump_conditional jump_conditional_32 : Cond → Source → Method
  pqr : Source → Arch → PqrOp → Method

-- The structure that a method fills.
unfoldable pub make : Method → Instruction
make (mov_internal op source arch) = Instruction.move op source arch
make (swap_bytes endian) = Instruction.swap_bytes endian
make (load size) = Builder.load size
make (load_abs size) = Builder.load_abs size
make (load_ind size) = Builder.load_ind size
make (load_x size) = Builder.load_x size
make (store size) = Builder.store size
make (store_x size) = Builder.store_x size
make jump_unconditional = Builder.jump_unconditional
make (jump_conditional cond source) = Instruction.jump cond source
make (jump_conditional_32 cond source) = Instruction.jump32 cond source
make call = Instruction.function_call false
make call_reg = Instruction.function_call true
make (pqr source arch op) = Instruction.pqr op source arch
make hor64_imm = Instruction.hor64
make exit = Instruction.exit

abbrev pub by_source : ℕ → ℕ → Source → ℕ
by_source immediate register from_imm = immediate
by_source immediate register from_reg = register

abbrev pub by_form : ℕ → ℕ → ℕ → ℕ → Source → Arch → ℕ
by_form imm64 reg64 imm32 reg32 source x64 = by_source imm64 reg64 source
by_form imm64 reg64 imm32 reg32 source x32 = by_source imm32 reg32 source

abbrev pub by_size : ℕ → ℕ → ℕ → ℕ → MemSize → ℕ
by_size one two four eight byte = one
by_size one two four eight half_word = two
by_size one two four eight word = four
by_size one two four eight double_word = eight

unfoldable pub move_name : OpBits → Source → Arch → Option ℕ
move_name OpBits.add source arch =
    some (by_form Alu.add64_imm Alu.add64_reg Alu.add32_imm Alu.add32_reg source arch)
move_name OpBits.sub source arch =
    some (by_form Alu.sub64_imm Alu.sub64_reg Alu.sub32_imm Alu.sub32_reg source arch)
move_name OpBits.mul source arch =
    some (by_form Alu.mul64_imm Alu.mul64_reg Alu.mul32_imm Alu.mul32_reg source arch)
move_name OpBits.div source arch =
    some (by_form Alu.div64_imm Alu.div64_reg Alu.div32_imm Alu.div32_reg source arch)
move_name OpBits.bit_or_op source arch =
    some (by_form Alu.or64_imm Alu.or64_reg Alu.or32_imm Alu.or32_reg source arch)
move_name OpBits.bit_and_op source arch =
    some (by_form Alu.and64_imm Alu.and64_reg Alu.and32_imm Alu.and32_reg source arch)
move_name OpBits.l_shift source arch =
    some (by_form Alu.lsh64_imm Alu.lsh64_reg Alu.lsh32_imm Alu.lsh32_reg source arch)
move_name OpBits.r_shift source arch =
    some (by_form Alu.rsh64_imm Alu.rsh64_reg Alu.rsh32_imm Alu.rsh32_reg source arch)
move_name OpBits.modulo source arch =
    some (by_form Alu.mod64_imm Alu.mod64_reg Alu.mod32_imm Alu.mod32_reg source arch)
move_name OpBits.bit_xor source arch =
    some (by_form Alu.xor64_imm Alu.xor64_reg Alu.xor32_imm Alu.xor32_reg source arch)
move_name OpBits.mov source arch =
    some (by_form Alu.mov64_imm Alu.mov64_reg Alu.mov32_imm Alu.mov32_reg source arch)
move_name OpBits.sign_r_shift source arch =
    some (by_form Alu.arsh64_imm Alu.arsh64_reg Alu.arsh32_imm Alu.arsh32_reg source arch)
move_name OpBits.negate from_imm x64 = some Alu.neg64
move_name OpBits.negate from_imm x32 = some Alu.neg32
move_name OpBits.negate from_reg arch = none

unfoldable pub pqr_name : PqrOp → Source → Arch → Option ℕ
pqr_name lmul source arch =
    some (by_form Pqr.lmul64_imm Pqr.lmul64_reg Pqr.lmul32_imm Pqr.lmul32_reg source arch)
pqr_name udiv source arch =
    some (by_form Pqr.udiv64_imm Pqr.udiv64_reg Pqr.udiv32_imm Pqr.udiv32_reg source arch)
pqr_name urem source arch =
    some (by_form Pqr.urem64_imm Pqr.urem64_reg Pqr.urem32_imm Pqr.urem32_reg source arch)
pqr_name sdiv source arch =
    some (by_form Pqr.sdiv64_imm Pqr.sdiv64_reg Pqr.sdiv32_imm Pqr.sdiv32_reg source arch)
pqr_name srem source arch =
    some (by_form Pqr.srem64_imm Pqr.srem64_reg Pqr.srem32_imm Pqr.srem32_reg source arch)
pqr_name uhmul source x64 = some (by_source Pqr.uhmul64_imm Pqr.uhmul64_reg source)
pqr_name uhmul source x32 = none
pqr_name shmul source x64 = some (by_source Pqr.shmul64_imm Pqr.shmul64_reg source)
pqr_name shmul source x32 = none

unfoldable pub jump64_name : Cond → Source → Option ℕ
jump64_name always from_imm = some Jump.ja
jump64_name always from_reg = none
jump64_name equals source = some (by_source Jump.jeq64_imm Jump.jeq64_reg source)
jump64_name greater source = some (by_source Jump.jgt64_imm Jump.jgt64_reg source)
jump64_name greater_equals source = some (by_source Jump.jge64_imm Jump.jge64_reg source)
jump64_name lower source = some (by_source Jump.jlt64_imm Jump.jlt64_reg source)
jump64_name lower_equals source = some (by_source Jump.jle64_imm Jump.jle64_reg source)
jump64_name bits_and source = some (by_source Jump.jset64_imm Jump.jset64_reg source)
jump64_name not_equals source = some (by_source Jump.jne64_imm Jump.jne64_reg source)
jump64_name greater_signed source = some (by_source Jump.jsgt64_imm Jump.jsgt64_reg source)
jump64_name greater_equals_signed source = some (by_source Jump.jsge64_imm Jump.jsge64_reg source)
jump64_name lower_signed source = some (by_source Jump.jslt64_imm Jump.jslt64_reg source)
jump64_name lower_equals_signed source = some (by_source Jump.jsle64_imm Jump.jsle64_reg source)

unfoldable pub jump32_name : Cond → Source → Option ℕ
jump32_name always source = none
jump32_name equals source = some (by_source Jump.jeq32_imm Jump.jeq32_reg source)
jump32_name greater source = some (by_source Jump.jgt32_imm Jump.jgt32_reg source)
jump32_name greater_equals source = some (by_source Jump.jge32_imm Jump.jge32_reg source)
jump32_name lower source = some (by_source Jump.jlt32_imm Jump.jlt32_reg source)
jump32_name lower_equals source = some (by_source Jump.jle32_imm Jump.jle32_reg source)
jump32_name bits_and source = some (by_source Jump.jset32_imm Jump.jset32_reg source)
jump32_name not_equals source = some (by_source Jump.jne32_imm Jump.jne32_reg source)
jump32_name greater_signed source = some (by_source Jump.jsgt32_imm Jump.jsgt32_reg source)
jump32_name greater_equals_signed source = some (by_source Jump.jsge32_imm Jump.jsge32_reg source)
jump32_name lower_signed source = some (by_source Jump.jslt32_imm Jump.jslt32_reg source)
jump32_name lower_equals_signed source = some (by_source Jump.jsle32_imm Jump.jsle32_reg source)

abbrev pub endian_name : Endian → ℕ
endian_name little = Alu.le
endian_name big = Alu.be

abbrev pub load_name : MemSize → Option ℕ
load_name double_word = some Memory.ld_dw_imm
load_name _ = none

abbrev pub load_x_name : Bool → MemSize → ℕ
load_x_name false = by_size Memory.ld_b_reg Memory.ld_h_reg Memory.ld_w_reg Memory.ld_dw_reg
load_x_name true = by_size Memory.ld_1b_reg Memory.ld_2b_reg Memory.ld_4b_reg Memory.ld_8b_reg

abbrev pub store_name : Bool → MemSize → ℕ
store_name false = by_size Memory.st_b_imm Memory.st_h_imm Memory.st_w_imm Memory.st_dw_imm
store_name true = by_size Memory.st_1b_imm Memory.st_2b_imm Memory.st_4b_imm Memory.st_8b_imm

abbrev pub store_x_name : Bool → MemSize → ℕ
store_x_name false = by_size Memory.st_b_reg Memory.st_h_reg Memory.st_w_reg Memory.st_dw_reg
store_x_name true = by_size Memory.st_1b_reg Memory.st_2b_reg Memory.st_4b_reg Memory.st_8b_reg

-- The opcode that ebpf.rs names for what a method is to make, if it names one.
unfoldable pub opcode_name : SbpfVersion → Method → Option ℕ
unfolding move_name pqr_name jump64_name jump32_name
opcode_name version (mov_internal op source arch) = move_name op source arch
opcode_name version (swap_bytes endian) = some (endian_name endian)
opcode_name version (load size) = load_name size
opcode_name version (load_abs size) = none
opcode_name version (load_ind size) = none
opcode_name version (load_x size) =
    some (load_x_name (move_memory_instruction_classes version) size)
opcode_name version (store size) = some (store_name (move_memory_instruction_classes version) size)
opcode_name version (store_x size) =
    some (store_x_name (move_memory_instruction_classes version) size)
opcode_name version jump_unconditional = some Jump.ja
opcode_name version (jump_conditional cond source) = jump64_name cond source
opcode_name version (jump_conditional_32 cond source) = jump32_name cond source
opcode_name version call = some Jump.call_imm
opcode_name version call_reg = some Jump.call_reg
opcode_name version (pqr source arch op) = pqr_name op source arch
opcode_name version hor64_imm = some Alu.hor64_imm
opcode_name version exit = some Jump.exit
