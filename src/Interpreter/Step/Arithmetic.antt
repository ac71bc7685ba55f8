-- ===== src/Interpreter/Step/Arithmetic.antt =====
-- The 32-bit additions and subtractions of the interpreter against arithmetic modulo 2 ^ 32.
use aeneas2isabelle.Prelude.{
  ℕ, ◌+◌, ◌%◌, ◌^◌, ◌≡◌, refl, some, arith, Bool-cases, inl, inr, subst, ◌∙◌,
}
use aeneas2isabelle.Prelude.Int.{ℤ, pos, negsuc, ◌+ℤ◌, wrap}
use aeneas2isabelle.Ebpf.Insn.{Insn}
use aeneas2isabelle.Program.{
  SbpfVersion, v0, v1, v2, v3, v4, reserved, explicit_sign_extension_of_results,
}
use aeneas2isabelle.Interpreter.Words.{as_i32, wrapping_i32, ◌-ℤ◌}
use aeneas2isabelle.Ebpf.Opcodes.Alu.{add32_reg, sub32_reg}
use aeneas2isabelle.Interpreter.Arms.{set_both, sign_extension}
use aeneas2isabelle.Interpreter.Step.{first_op, all_ops}

wrap-wrapping_i32 : (z : ℤ) → wrap (2 ^ 32) (wrapping_i32 z) ≡ wrap (2 ^ 32) z
wrap-wrapping_i32 (pos n) = ground arith
wrap-wrapping_i32 (negsuc n) = ground arith

sign_extension-low :
    (version : SbpfVersion) (z : ℤ) → sign_extension version z % 2 ^ 32 ≡ wrap (2 ^ 32) z
unfolding sign_extension
sign_extension-low version (pos n) =
    elim (Bool-cases (explicit_sign_extension_of_results version)) [
      | inl e ↦ rw e (omega arith)
      | inr e ↦ rw e (omega arith)
    ]
sign_extension-low version (negsuc n) =
    elim (Bool-cases (explicit_sign_extension_of_results version)) [
      | inl e ↦ rw e (omega arith)
      | inr e ↦ rw e (omega arith)
    ]

wrap-add : (a b : ℕ) → wrap (2 ^ 32) (as_i32 a +ℤ as_i32 b) ≡ (a + b) % 2 ^ 32
unfolding ◌+ℤ◌
wrap-add a b = ground arith

wrap-sub : (a b : ℕ) → (wrap (2 ^ 32) (as_i32 a -ℤ as_i32 b) + b) % 2 ^ 32 ≡ a % 2 ^ 32
unfolding ◌-ℤ◌
wrap-sub a b = ground arith

unfoldable pub sum32 : SbpfVersion → ℕ → ℕ → ℕ
sum32 version d s = sign_extension version (wrapping_i32 (as_i32 d +ℤ as_i32 s))

unfoldable pub difference32 : SbpfVersion → ℕ → ℕ → ℕ
difference32 version d s = sign_extension version (wrapping_i32 (as_i32 d -ℤ as_i32 s))

pub first_op-add32_reg :
    (version : SbpfVersion) (insn : Insn)
    → first_op add32_reg (all_ops version insn) ≡ some (set_both (sum32 version))
unfolding first_op all_ops sum32
first_op-add32_reg v0 insn = refl
first_op-add32_reg v1 insn = refl
first_op-add32_reg v2 insn = refl
first_op-add32_reg v3 insn = refl
first_op-add32_reg v4 insn = refl
first_op-add32_reg reserved insn = refl

pub first_op-sub32_reg :
    (version : SbpfVersion) (insn : Insn)
    → first_op sub32_reg (all_ops version insn) ≡ some (set_both (difference32 version))
unfolding first_op all_ops difference32
first_op-sub32_reg v0 insn = refl
first_op-sub32_reg v1 insn = refl
first_op-sub32_reg v2 insn = refl
first_op-sub32_reg v3 insn = refl
first_op-sub32_reg v4 insn = refl
first_op-sub32_reg reserved insn = refl

sum32-low : (version : SbpfVersion) (d s : ℕ) → sum32 version d s % 2 ^ 32 ≡ (d + s) % 2 ^ 32
unfolding sum32
sum32-low version d s =
    sign_extension-low version (wrapping_i32 (as_i32 d +ℤ as_i32 s))
    ∙ (wrap-wrapping_i32 (as_i32 d +ℤ as_i32 s) ∙ wrap-add d s)

difference32-low :
    (version : SbpfVersion) (d s : ℕ) → (difference32 version d s + s) % 2 ^ 32 ≡ d % 2 ^ 32
unfolding difference32
difference32-low version d s = omega (
  arith,
  sign_extension-low version (wrapping_i32 (as_i32 d -ℤ as_i32 s)),
  wrap-wrapping_i32 (as_i32 d -ℤ as_i32 s),
  wrap-sub d s,
)

-- In every version, the function of two registers that the arm of ADD32_REG computes is their sum
-- modulo 2 ^ 32 in its lowest 32 bits, and the one of SUB32_REG is there the number that gives
-- the first register when the second is added.
pub first_op-arithmetic :
    (version : SbpfVersion) (insn : Insn) (f g : ℕ → ℕ → ℕ) (d s : ℕ)
    → first_op add32_reg (all_ops version insn) ≡ some (set_both f)
    → first_op sub32_reg (all_ops version insn) ≡ some (set_both g)
    → (f d s % 2 ^ 32 ≡ (d + s) % 2 ^ 32) × ((g d s + s) % 2 ^ 32 ≡ d % 2 ^ 32)
first_op-arithmetic version insn f g d s e h =
    let adds = first_op-add32_reg version insn in
    let subtracts = first_op-sub32_reg version insn in
    let is_sum : sum32 version ≡ f = cc in
    let is_difference : difference32 version ≡ g = cc in
    (
      subst (λ (k : ℕ → ℕ → ℕ). k d s % 2 ^ 32 ≡ (d + s) % 2 ^ 32) is_sum (sum32-low version d s),
      subst (λ (k : ℕ → ℕ → ℕ). (k d s + s) % 2 ^ 32 ≡ d % 2 ^ 32) is_difference
          (difference32-low version d s),
    )
