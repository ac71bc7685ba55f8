-- ===== src/Verifier/Arms.antt =====
-- casestudy/sbpf/src/verifier.rs: the arms of the `match insn.opc` of `verify`, in their order. An
-- arm is an opcode, its guard and what its body checks; the first arm that fits is taken.
pub mod Memory
pub mod Alu32
pub mod Alu64
pub mod Pqr
pub mod Jmp32
pub mod Jmp64
use aeneas2isabelle.Prelude.{ℕ, Bool}

-- The bodies of the arms.
pub data Check : Type 0 where
  plain store load_dw nonzero endian jump callx : Check
  shift aligned : ℕ → Check

pub record Arm : Type 0 where
  pub opcode : ℕ
  pub guard : Bool
  pub check : Check

abbrev pub arm : ℕ → Bool → Check → Arm
arm opcode guard check = record { opcode = opcode; guard = guard; check = check }
