-- ===== src/Builder/Named.antt =====
-- The methods of the builder make the opcodes that ebpf.rs names.
pub mod Forms
use aeneas2isabelle.Prelude.{ℕ, ◌≡◌, refl, ◌∙◌, Bool, true, false, some}
use aeneas2isabelle.Program.{
  SbpfVersion, move_memory_instruction_classes, v0, v1, v2, v3, v4, reserved,
}
use aeneas2isabelle.Builder.{
  Source, from_imm, from_reg, OpBits, PqrOp, lmul, uhmul, udiv, urem, shmul, sdiv, srem, Arch, x64,
  x32, Endian, little, big, MemSize, byte, half_word, word, double_word, Cond, always, equals,
  greater, greater_equals, lower, lower_equals, bits_and, not_equals, greater_signed,
  greater_equals_signed, lower_signed, lower_equals_signed, move_opcode, pqr_opcode, jump_opcode,
  jump32_opcode, opt_code_byte,
}
use aeneas2isabelle.Builder
use aeneas2isabelle.Builder.Methods.{
  Method, mov_internal, swap_bytes, load, load_abs, load_ind, load_x, store, store_x,
  jump_unconditional, call, call_reg, hor64_imm, exit, jump_conditional, jump_conditional_32, pqr,
  make, by_source, by_form, by_size, move_name, pqr_name, jump64_name, jump32_name, load_x_name,
  store_name, store_x_name, endian_name, opcode_name,
}
use aeneas2isabelle.Builder.Named.Forms.{
  some_injective, by_size-named, move-named, pqr-named, jump64-named, jump32-named,
}
use aeneas2isabelle.Ebpf.Opcodes.Memory

load-named :
    (version : SbpfVersion) (opcode : ℕ)
    → some Memory.ld_dw_imm ≡ some opcode
    → opt_code_byte version (Builder.load double_word) ≡ opcode
unfolding opt_code_byte
load-named v0 opcode h = some_injective refl h
load-named v1 opcode h = some_injective refl h
load-named v2 opcode h = some_injective refl h
load-named v3 opcode h = some_injective refl h
load-named v4 opcode h = some_injective refl h
load-named reserved opcode h = some_injective refl h

load_x-named :
    (version : SbpfVersion) (size : MemSize) (opcode : ℕ)
    → some (load_x_name (move_memory_instruction_classes version) size) ≡ some opcode
    → opt_code_byte version (Builder.load_x size) ≡ opcode
unfolding opt_code_byte
load_x-named v0 size opcode h =
    by_size-named (λ z. opt_code_byte v0 (Builder.load_x z)) refl refl refl refl size h
load_x-named v1 size opcode h =
    by_size-named (λ z. opt_code_byte v1 (Builder.load_x z)) refl refl refl refl size h
load_x-named v2 size opcode h =
    by_size-named (λ z. opt_code_byte v2 (Builder.load_x z)) refl refl refl refl size h
load_x-named v3 size opcode h =
    by_size-named (λ z. opt_code_byte v3 (Builder.load_x z)) refl refl refl refl size h
load_x-named v4 size opcode h =
    by_size-named (λ z. opt_code_byte v4 (Builder.load_x z)) refl refl refl refl size h
load_x-named reserved size opcode h =
    by_size-named (λ z. opt_code_byte reserved (Builder.load_x z)) refl refl refl refl size h

store-named :
    (version : SbpfVersion) (size : MemSize) (opcode : ℕ)
    → some (store_name (move_memory_instruction_classes version) size) ≡ some opcode
    → opt_code_byte version (Builder.store size) ≡ opcode
unfolding opt_code_byte
store-named v0 size opcode h =
    by_size-named (λ z. opt_code_byte v0 (Builder.store z)) refl refl refl refl size h
store-named v1 size opcode h =
    by_size-named (λ z. opt_code_byte v1 (Builder.store z)) refl refl refl refl size h
store-named v2 size opcode h =
    by_size-named (λ z. opt_code_byte v2 (Builder.store z)) refl refl refl refl size h
store-named v3 size opcode h =
    by_size-named (λ z. opt_code_byte v3 (Builder.store z)) refl refl refl refl size h
store-named v4 size opcode h =
    by_size-named (λ z. opt_code_byte v4 (Builder.store z)) refl refl refl refl size h
store-named reserved size opcode h =
    by_size-named (λ z. opt_code_byte reserved (Builder.store z)) refl refl refl refl size h

store_x-named :
    (version : SbpfVersion) (size : MemSize) (opcode : ℕ)
    → some (store_x_name (move_memory_instruction_classes version) size) ≡ some opcode
    → opt_code_byte version (Builder.store_x size) ≡ opcode
unfolding opt_code_byte
store_x-named v0 size opcode h =
    by_size-named (λ z. opt_code_byte v0 (Builder.store_x z)) refl refl refl refl size h
store_x-named v1 size opcode h =
    by_size-named (λ z. opt_code_byte v1 (Builder.store_x z)) refl refl refl refl size h
store_x-named v2 size opcode h =
    by_size-named (λ z. opt_code_byte v2 (Builder.store_x z)) refl refl refl refl size h
store_x-named v3 size opcode h =
    by_size-named (λ z. opt_code_byte v3 (Builder.store_x z)) refl refl refl refl size h
store_x-named v4 size opcode h =
    by_size-named (λ z. opt_code_byte v4 (Builder.store_x z)) refl refl refl refl size h
store_x-named reserved size opcode h =
    by_size-named (λ z. opt_code_byte reserved (Builder.store_x z)) refl refl refl refl size h

-- Whatever the version, each method of the builder whose instruction has a name in ebpf.rs makes
-- the opcode of that name: with the class, the operation, the operand and the size that the method
-- and its arguments ask for, in the encoding of the version.
pub opt_code_byte-named :
    (version : SbpfVersion) (method : Method) (opcode : ℕ)
    → opcode_name version method ≡ some opcode
    → opt_code_byte version (make method) ≡ opcode
unfolding opcode_name opt_code_byte make
opt_code_byte-named version (mov_internal op source arch) opcode h =
    move-named op source arch opcode h
opt_code_byte-named version (swap_bytes little) opcode h = some_injective refl h
opt_code_byte-named version (swap_bytes big) opcode h = some_injective refl h
opt_code_byte-named version (load byte) opcode h = cc
opt_code_byte-named version (load half_word) opcode h = cc
opt_code_byte-named version (load word) opcode h = cc
opt_code_byte-named version (load double_word) opcode h = load-named version opcode h
opt_code_byte-named version (load_abs size) opcode h = cc
opt_code_byte-named version (load_ind size) opcode h = cc
opt_code_byte-named version (load_x size) opcode h = load_x-named version size opcode h
opt_code_byte-named version (store size) opcode h = store-named version size opcode h
opt_code_byte-named version (store_x size) opcode h = store_x-named version size opcode h
opt_code_byte-named version jump_unconditional opcode h = some_injective refl h
opt_code_byte-named version (jump_conditional cond source) opcode h =
    jump64-named cond source opcode h
opt_code_byte-named version (jump_conditional_32 cond source) opcode h =
    jump32-named cond source opcode h
opt_code_byte-named version call opcode h = some_injective refl h
opt_code_byte-named version call_reg opcode h = some_injective refl h
opt_code_byte-named version (pqr source arch op) opcode h = pqr-named op source arch opcode h
opt_code_byte-named version hor64_imm opcode h = some_injective refl h
opt_code_byte-named version exit opcode h = some_injective refl h
