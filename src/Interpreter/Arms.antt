-- ===== src/Interpreter/Arms.antt =====
-- casestudy/sbpf/src/interpreter.rs: the arms of the `match insn.opc` of `step`, in their order.
-- An arm is an opcode, its guard and its body; the first arm that fits is taken.
pub mod Memory
pub mod Alu32
pub mod Alu64
pub mod Pqr
pub mod Jmp32
pub mod Jmp64
use aeneas2isabelle.Prelude.{ℕ, ◌^◌, Bool, ◌==◌, if◌then◌else◌}
use aeneas2isabelle.Prelude.Int.{ℤ, pos, wrap}
use aeneas2isabelle.Interpreter.Words.{imm_u32, imm_u64, imm_i32, eq_ℤ}
use aeneas2isabelle.Program.{SbpfVersion, explicit_sign_extension_of_results}

-- The type that an immediate is cast to before it divides, and whether it is zero there.
pub data Divisor : Type 0 where
  as_unsigned32 as_unsigned64 as_signed32 as_signed64 : Divisor

abbrev pub is_zero : Divisor → ℤ → Bool
is_zero as_unsigned32 imm = imm_u32 imm == 0
is_zero as_unsigned64 imm = imm_u64 imm == 0
is_zero as_signed32 imm = eq_ℤ (imm_i32 imm) (pos 0)
is_zero as_signed64 imm = eq_ℤ imm (pos 0)

-- The bodies of the arms. `set_…` computes the destination register of a number, of the old
-- value of that register, of the source register, or of both. `divide_imm` divides by an
-- immediate cast to a type, and says for which destinations the division overflows and what the
-- result is; `divide_reg` divides by the source register, and says when that is zero. The memory
-- accesses have a size in bytes.
pub data Body : Type 0 where
  set_imm : ℕ → Body
  set_dst : (ℕ → ℕ) → Body
  set_src : (ℕ → ℕ) → Body
  set_both : (ℕ → ℕ → ℕ) → Body
  divide_imm : Divisor → (ℕ → Bool) → (ℕ → ℕ) → Body
  divide_reg : (ℕ → Bool) → (ℕ → ℕ → Bool) → (ℕ → ℕ → ℕ) → Body
  load store_imm store_reg : ℕ → Body
  convert : (ℕ → ℕ → ℕ) → Body
  jump_always : Body
  jump_imm : (ℕ → Bool) → Body
  jump_reg : (ℕ → ℕ → Bool) → Body
  load_dw call_register call_immediate exit_frame : Body

pub record Op : Type 0 where
  pub opcode : ℕ
  pub guard : Bool
  pub body : Body

abbrev pub op : ℕ → Bool → Body → Op
op opcode guard body = record { opcode = opcode; guard = guard; body = body }

-- A result of 32 bits as a register.
unfoldable pub sign_extension : SbpfVersion → ℤ → ℕ
sign_extension version value =
    if explicit_sign_extension_of_results version then wrap (2 ^ 32) value else wrap (2 ^ 64) value
