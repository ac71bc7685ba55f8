-- ===== src/Jit/Reference/Select.antt =====
-- `emit_jit_instruction` is selection followed by emission of what was selected.
use aeneas2isabelle.Prelude.{
  ℕ, ◌%◌, ◌^◌, ◌≡◌, refl, sym, ap, ◌∙◌, Bool, true, false, Option, none, some, List, [], ◌∷◌, ◌++◌,
  arith, Bool-cases, inl, inr, if◌then◌else◌,
}
use aeneas2isabelle.Prelude.Int.{ℤ, pos, negsuc, wrap, in_i32}
use aeneas2isabelle.Prelude.Words.{le_bytes}
use aeneas2isabelle.X86.Types.{X86Instruction, X86Register, OperandSize}
use aeneas2isabelle.X86.Encode.{encode}
use aeneas2isabelle.X86.Instruction
use aeneas2isabelle.Jit.Types.{
  JitInstruction, load_immediate, move_register, alu_immediate, alu_register, shift_immediate,
  shift_register, jump, jump_immediate, jump_register, jump_test_immediate, jump_test_register,
  return, AluOperation, ShiftOperation, JitCompilerModel, JumpCondition,
}
use aeneas2isabelle.Jit.Result.{
  Result, ok, err, bind, done, and_then, and_then_congr, M, lift, ◌>>=◌, ◌>>◌,
}
use aeneas2isabelle.Jit.State.{emit_bytes, emit_ins, relative_to_target_pc}
use aeneas2isabelle.Jit.Registers.{mapped_register, alu_encoding, register_scratch}
use aeneas2isabelle.Jit.Emit.{
  emit_jit_instruction, emit_conditional_jump, emit_register_shift, load_value, is_rcx, is_s32,
  emit_alu_short, emit_alu_wide, emit_shift_by_rcx,
}
use aeneas2isabelle.Jit.Reference.{
  Branch, Selected, code, head, branch_size, select, straight, branching, shift_by_rcx, shift_code,
}
use mathlib.Core.List.{append-nil, append_assoc}

unfoldable pub emit_branch : Option Branch → M (Unit {0})
emit_branch none = done tt
emit_branch (some b) = do
  displacement ← relative_to_target_pc b.target_pc (branch_size (some b))
  λ s. done tt (emit_bytes (head b.condition ++ le_bytes 4 (wrap (2 ^ 32) displacement)) s)

unfoldable pub emit_selected : Selected → M (Unit {0})
unfolding emit_branch
emit_selected x s = emit_branch x.branch (emit_bytes (code x.body) s)

-- The low four bytes of a word do not depend on its width.
low_bytes : (x y : ℕ) → x % 2 ^ 32 ≡ y % 2 ^ 32 → le_bytes 4 x ≡ le_bytes 4 y
unfolding le_bytes
low_bytes x y h = ap₄ (omega arith) (omega arith) (omega arith) (omega arith)
  where
    ap₄ :
        {a b c d a' b' c' d' : ℕ}
        → a ≡ a'
        → b ≡ b'
        → c ≡ c'
        → d ≡ d'
        → a ∷ b ∷ c ∷ d ∷ [] ≡ a' ∷ b' ∷ c' ∷ d' ∷ []
    ap₄ p q r s = cc

displacement_bytes : (z : ℤ) → le_bytes 4 (wrap (2 ^ 64) z) ≡ le_bytes 4 (wrap (2 ^ 32) z)
displacement_bytes (pos n) = low_bytes _ _ (omega arith)
displacement_bytes (negsuc n) = low_bytes _ _ (omega arith)

encode-jump_immediate :
    (z : ℤ) → encode (Instruction.jump_immediate z) ≡ 0xe9 ∷ le_bytes 4 (wrap (2 ^ 32) z)
unfolding encode Instruction.jump_immediate
encode-jump_immediate z = ap (λ t. 0xe9 ∷ t) (displacement_bytes z)

encode-conditional_jump_immediate :
    (opcode : ℕ) (z : ℤ)
    → encode (Instruction.conditional_jump_immediate opcode z)
      ≡ 0x0f ∷ opcode ∷ le_bytes 4 (wrap (2 ^ 32) z)
unfolding encode Instruction.conditional_jump_immediate
encode-conditional_jump_immediate opcode z = ap (λ t. 0x0f ∷ opcode ∷ t) (displacement_bytes z)

-- A check that comes first on both sides.
through :
    {A : Type 0} (r : Result A) (k : A → M (Unit {0})) (g : A → Result Selected)
    (s : JitCompilerModel)
    → ((a : A) → k a s ≡ and_then (lift (g a) s) emit_selected)
    → and_then (lift r s) k ≡ and_then (lift (bind r g) s) emit_selected
through (ok a) k g s h = h a
through (err e) k g s h = refl

emit_one :
    (i : X86Instruction) (s : JitCompilerModel)
    → emit_ins i s ≡ emit_selected (record { body = i ∷ []; branch = none }) s
unfolding emit_ins emit_selected code emit_bytes
emit_one i s = simp append-nil

emit_all : List X86Instruction → M (Unit {0})
emit_all [] = done tt
emit_all (i ∷ is) = emit_ins i >> emit_all is

emit_all-straight :
    (is : List X86Instruction) (s : JitCompilerModel)
    → emit_all is s ≡ emit_selected (straight is) s
unfolding emit_all emit_ins emit_selected code emit_bytes
emit_all-straight [] s = simp append-nil
emit_all-straight (i ∷ is) s = emit_all-straight is _ ∙ simp append_assoc

emit_alu-select :
    (size : OperandSize) (operation : AluOperation) (d : X86Register) (value : ℤ) (fits : Bool)
    (s : JitCompilerModel)
    → (if fits
          then emit_alu_short size (alu_encoding operation).1 d value
          else emit_alu_wide size (alu_encoding operation).0 d value)
        s
      ≡ emit_selected
          (straight (
            if fits
            then Instruction.alu_immediate size 0x81 (alu_encoding operation).1 d value none ∷ []
            else Instruction.load_immediate register_scratch value
              ∷ Instruction.alu size (alu_encoding operation).0 register_scratch d none
              ∷ []))
          s
emit_alu-select size operation d value true s =
    unfold emit_all emit_ins emit_alu_short in emit_all-straight _ s
emit_alu-select size operation d value false s =
    unfold emit_all emit_ins emit_alu_wide in emit_all-straight _ s

emit_shift_by_rcx-straight :
    (size : OperandSize) (extension : ℕ) (r d : X86Register) (s : JitCompilerModel)
    → emit_shift_by_rcx size extension r d s ≡ emit_all (shift_by_rcx size extension r d) s
unfolding emit_shift_by_rcx emit_all emit_ins
emit_shift_by_rcx-straight size extension r d s = elim (Bool-cases (is_rcx r)) [
  | inl p ↦ rw p
  | inr p ↦ rw p (elim (Bool-cases (is_rcx d)) [ inl q ↦ rw q | inr q ↦ rw q ])
]

emit_shift-select :
    (size : OperandSize) (operation : ShiftOperation) (r d : X86Register) (s : JitCompilerModel)
    → emit_register_shift size operation r d s
      ≡ emit_selected (straight (shift_code size operation r d)) s
unfolding emit_register_shift emit_all emit_ins
emit_shift-select size operation r d s =
    elim (Bool-cases (is_s32 size)) [
      | inl p ↦ rw p (emit_shift_by_rcx-straight size _ r d _)
      | inr p ↦ rw p (emit_shift_by_rcx-straight size _ r d s)
    ]
    ∙ emit_all-straight (shift_code size operation r d) s

emit_bytes-nil : (s : JitCompilerModel) → emit_bytes [] s ≡ s
unfolding emit_bytes
emit_bytes-nil s = simp append-nil

-- The two kinds of branch: the displacement is computed, then the jump is emitted.
emit_jump-select :
    (target_pc : ℕ) (s : JitCompilerModel)
    → (relative_to_target_pc target_pc 5 >>= λ z. emit_ins (Instruction.jump_immediate z)) s
      ≡ emit_selected (branching [] none target_pc) s
unfolding emit_ins emit_selected code head
emit_jump-select target_pc s =
    and_then_congr (relative_to_target_pc target_pc 5 s) _ _
      (λ z t. ap (λ b. done tt (emit_bytes b t)) (encode-jump_immediate z))
    ∙ sym (
        ap (λ t. emit_branch (some (record { condition = none; target_pc = target_pc })) t)
          (emit_bytes-nil s))

emit_conditional-select :
    (i : X86Instruction) (condition : JumpCondition) (target_pc : ℕ) (s : JitCompilerModel)
    → (emit_ins i >> emit_conditional_jump condition target_pc) s
      ≡ emit_selected (branching (i ∷ []) (some condition) target_pc) s
unfolding emit_ins emit_selected code head emit_conditional_jump
emit_conditional-select i condition target_pc s =
    and_then_congr (relative_to_target_pc target_pc 6 (emit_bytes (encode i) s)) _ _
      (λ z t. ap (λ b. done tt (emit_bytes b t)) (encode-conditional_jump_immediate _ z))
    ∙ ap
        (λ b.
          emit_branch (some (record { condition = some condition; target_pc = target_pc }))
            (emit_bytes b s))
        (sym (append-nil (encode i)))

-- On every instruction and in every state, the code generator selects first, which is where an
-- unmapped register or a bad operand size fails, and then emits what was selected.
pub emit_jit_instruction-select :
    (i : JitInstruction) (s : JitCompilerModel)
    → emit_jit_instruction i s ≡ and_then (lift (select i) s) emit_selected
unfolding emit_jit_instruction select
emit_jit_instruction-select (load_immediate size destination value) s =
    through (mapped_register destination) _ _ s
      λ d. through (load_value size value) _ _ s λ v. emit_one _ s
emit_jit_instruction-select (move_register size source destination) s =
    through (mapped_register source) _ _ s
      λ r. through (mapped_register destination) _ _ s λ d. emit_one _ s
emit_jit_instruction-select (alu_immediate size operation destination value) s =
    through (mapped_register destination) _ _ s
      λ d. emit_alu-select size operation d value (in_i32 value) s
emit_jit_instruction-select (alu_register size operation source destination) s =
    through (mapped_register source) _ _ s
      λ r. through (mapped_register destination) _ _ s λ d. emit_one _ s
emit_jit_instruction-select (shift_immediate size operation destination amount) s =
    through (mapped_register destination) _ _ s λ d. emit_one _ s
emit_jit_instruction-select (shift_register size operation source destination) s =
    through (mapped_register source) _ _ s
      λ r. through (mapped_register destination) _ _ s λ d. emit_shift-select size operation r d s
emit_jit_instruction-select (jump target_pc) s = emit_jump-select target_pc s
emit_jit_instruction-select (jump_immediate size condition destination value target_pc) s =
    through (mapped_register destination) _ _ s λ d. emit_conditional-select _ _ target_pc s
emit_jit_instruction-select (jump_register size condition source destination target_pc) s =
    through (mapped_register source) _ _ s
      λ r. through (mapped_register destination) _ _ s λ d. emit_conditional-select _ _ target_pc s
emit_jit_instruction-select (jump_test_immediate size destination value target_pc) s =
    through (mapped_register destination) _ _ s λ d. emit_conditional-select _ _ target_pc s
emit_jit_instruction-select (jump_test_register size source destination target_pc) s =
    through (mapped_register source) _ _ s
      λ r. through (mapped_register destination) _ _ s λ d. emit_conditional-select _ _ target_pc s
emit_jit_instruction-select return s = emit_one _ s
