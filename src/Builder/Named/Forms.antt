-- ===== src/Builder/Named/Forms.antt =====
-- The opcodes of the operations and conditions, in each of their forms, are those that ebpf.rs names.
use aeneas2isabelle.Prelude.{ℕ, ◌≡◌, refl, some}
use aeneas2isabelle.Builder.{
  Source, from_imm, from_reg, OpBits, PqrOp, lmul, uhmul, udiv, urem, shmul, sdiv, srem, Arch, x64,
  x32, MemSize, byte, half_word, word, double_word, Cond, always, equals, greater, greater_equals,
  lower, lower_equals, bits_and, not_equals, greater_signed, greater_equals_signed, lower_signed,
  lower_equals_signed, move_opcode, pqr_opcode, jump_opcode, jump32_opcode,
}
use aeneas2isabelle.Builder.Methods.{
  by_source, by_form, by_size, move_name, pqr_name, jump64_name, jump32_name,
}

pub some_injective : {a b c : ℕ} → a ≡ b → some b ≡ some c → a ≡ c
some_injective e h = cc

pub by_source-named :
    {a b opcode : ℕ} (f : Source → ℕ)
    → f from_imm ≡ a
    → f from_reg ≡ b
    → (source : Source) → some (by_source a b source) ≡ some opcode
    → f source ≡ opcode
by_source-named f ea eb from_imm h = some_injective ea h
by_source-named f ea eb from_reg h = some_injective eb h

pub by_form-named :
    {a b c d opcode : ℕ} (f : Source → Arch → ℕ)
    → f from_imm x64 ≡ a
    → f from_reg x64 ≡ b
    → f from_imm x32 ≡ c
    → f from_reg x32 ≡ d
    → (source : Source) (arch : Arch) → some (by_form a b c d source arch) ≡ some opcode
    → f source arch ≡ opcode
by_form-named f ea eb ec ed source x64 h = by_source-named (λ s. f s x64) ea eb source h
by_form-named f ea eb ec ed source x32 h = by_source-named (λ s. f s x32) ec ed source h

pub by_size-named :
    {a b c d opcode : ℕ} (f : MemSize → ℕ)
    → f byte ≡ a
    → f half_word ≡ b
    → f word ≡ c
    → f double_word ≡ d
    → (size : MemSize) → some (by_size a b c d size) ≡ some opcode
    → f size ≡ opcode
by_size-named f ea eb ec ed byte h = some_injective ea h
by_size-named f ea eb ec ed half_word h = some_injective eb h
by_size-named f ea eb ec ed word h = some_injective ec h
by_size-named f ea eb ec ed double_word h = some_injective ed h

pub move-named :
    (op : OpBits) (source : Source) (arch : Arch) (opcode : ℕ)
    → move_name op source arch ≡ some opcode
    → move_opcode op source arch ≡ opcode
unfolding move_name
move-named OpBits.add source arch opcode h =
    by_form-named (move_opcode OpBits.add) refl refl refl refl source arch h
move-named OpBits.sub source arch opcode h =
    by_form-named (move_opcode OpBits.sub) refl refl refl refl source arch h
move-named OpBits.mul source arch opcode h =
    by_form-named (move_opcode OpBits.mul) refl refl refl refl source arch h
move-named OpBits.div source arch opcode h =
    by_form-named (move_opcode OpBits.div) refl refl refl refl source arch h
move-named OpBits.bit_or_op source arch opcode h =
    by_form-named (move_opcode OpBits.bit_or_op) refl refl refl refl source arch h
move-named OpBits.bit_and_op source arch opcode h =
    by_form-named (move_opcode OpBits.bit_and_op) refl refl refl refl source arch h
move-named OpBits.l_shift source arch opcode h =
    by_form-named (move_opcode OpBits.l_shift) refl refl refl refl source arch h
move-named OpBits.r_shift source arch opcode h =
    by_form-named (move_opcode OpBits.r_shift) refl refl refl refl source arch h
move-named OpBits.modulo source arch opcode h =
    by_form-named (move_opcode OpBits.modulo) refl refl refl refl source arch h
move-named OpBits.bit_xor source arch opcode h =
    by_form-named (move_opcode OpBits.bit_xor) refl refl refl refl source arch h
move-named OpBits.mov source arch opcode h =
    by_form-named (move_opcode OpBits.mov) refl refl refl refl source arch h
move-named OpBits.sign_r_shift source arch opcode h =
    by_form-named (move_opcode OpBits.sign_r_shift) refl refl refl refl source arch h
move-named OpBits.negate from_imm x64 opcode h = some_injective refl h
move-named OpBits.negate from_imm x32 opcode h = some_injective refl h
move-named OpBits.negate from_reg arch opcode h = cc

pub pqr-named :
    (op : PqrOp) (source : Source) (arch : Arch) (opcode : ℕ)
    → pqr_name op source arch ≡ some opcode
    → pqr_opcode op source arch ≡ opcode
unfolding pqr_name
pqr-named lmul source arch opcode h =
    by_form-named (pqr_opcode lmul) refl refl refl refl source arch h
pqr-named udiv source arch opcode h =
    by_form-named (pqr_opcode udiv) refl refl refl refl source arch h
pqr-named urem source arch opcode h =
    by_form-named (pqr_opcode urem) refl refl refl refl source arch h
pqr-named sdiv source arch opcode h =
    by_form-named (pqr_opcode sdiv) refl refl refl refl source arch h
pqr-named srem source arch opcode h =
    by_form-named (pqr_opcode srem) refl refl refl refl source arch h
pqr-named uhmul source x64 opcode h =
    by_source-named (λ s. pqr_opcode uhmul s x64) refl refl source h
pqr-named uhmul source x32 opcode h = cc
pqr-named shmul source x64 opcode h =
    by_source-named (λ s. pqr_opcode shmul s x64) refl refl source h
pqr-named shmul source x32 opcode h = cc

pub jump64-named :
    (cond : Cond) (source : Source) (opcode : ℕ)
    → jump64_name cond source ≡ some opcode
    → jump_opcode cond source ≡ opcode
unfolding jump64_name
jump64-named always from_imm opcode h = some_injective refl h
jump64-named always from_reg opcode h = cc
jump64-named equals source opcode h = by_source-named (jump_opcode equals) refl refl source h
jump64-named greater source opcode h = by_source-named (jump_opcode greater) refl refl source h
jump64-named greater_equals source opcode h =
    by_source-named (jump_opcode greater_equals) refl refl source h
jump64-named lower source opcode h = by_source-named (jump_opcode lower) refl refl source h
jump64-named lower_equals source opcode h =
    by_source-named (jump_opcode lower_equals) refl refl source h
jump64-named bits_and source opcode h = by_source-named (jump_opcode bits_and) refl refl source h
jump64-named not_equals source opcode h =
    by_source-named (jump_opcode not_equals) refl refl source h
jump64-named greater_signed source opcode h =
    by_source-named (jump_opcode greater_signed) refl refl source h
jump64-named greater_equals_signed source opcode h =
    by_source-named (jump_opcode greater_equals_signed) refl refl source h
jump64-named lower_signed source opcode h =
    by_source-named (jump_opcode lower_signed) refl refl source h
jump64-named lower_equals_signed source opcode h =
    by_source-named (jump_opcode lower_equals_signed) refl refl source h

pub jump32-named :
    (cond : Cond) (source : Source) (opcode : ℕ)
    → jump32_name cond source ≡ some opcode
    → jump32_opcode cond source ≡ opcode
unfolding jump32_name
jump32-named always source opcode h = cc
jump32-named equals source opcode h = by_source-named (jump32_opcode equals) refl refl source h
jump32-named greater source opcode h = by_source-named (jump32_opcode greater) refl refl source h
jump32-named greater_equals source opcode h =
    by_source-named (jump32_opcode greater_equals) refl refl source h
jump32-named lower source opcode h = by_source-named (jump32_opcode lower) refl refl source h
jump32-named lower_equals source opcode h =
    by_source-named (jump32_opcode lower_equals) refl refl source h
jump32-named bits_and source opcode h = by_source-named (jump32_opcode bits_and) refl refl source h
jump32-named not_equals source opcode h =
    by_source-named (jump32_opcode not_equals) refl refl source h
jump32-named greater_signed source opcode h =
    by_source-named (jump32_opcode greater_signed) refl refl source h
jump32-named greater_equals_signed source opcode h =
    by_source-named (jump32_opcode greater_equals_signed) refl refl source h
jump32-named lower_signed source opcode h =
    by_source-named (jump32_opcode lower_signed) refl refl source h
jump32-named lower_equals_signed source opcode h =
    by_source-named (jump32_opcode lower_equals_signed) refl refl source h
