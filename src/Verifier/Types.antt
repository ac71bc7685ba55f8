-- ===== src/Verifier/Types.antt =====
-- casestudy/sbpf/src/verifier.rs: `VerifierError` and what a check returns.
use aeneas2isabelle.Prelude.{ℕ, Option, none, some}

pub data VerifierError : Type 0 where
  program_length_not_multiple : VerifierError
  program_too_large : ℕ → VerifierError
  no_program : VerifierError
  division_by_zero unsupported_lebe_argument : ℕ → VerifierError
  lddw_cannot_be_last : VerifierError
  incomplete_lddw infinite_loop : ℕ → VerifierError
  jump_out_of_code jump_to_middle_of_lddw : ℕ → ℕ → VerifierError
  invalid_source_register cannot_write_r10 invalid_destination_register : ℕ → VerifierError
  unknown_op_code : ℕ → ℕ → VerifierError
  shift_with_overflow : ℕ → ℕ → ℕ → VerifierError
  invalid_register invalid_function invalid_syscall unaligned_immediate : ℕ → VerifierError

-- `panic` is a read outside the program.
pub data Verdict {ℓ} (A : Type ℓ) : Type ℓ where
  accepted : A → Verdict A
  rejected : VerifierError → Verdict A
  panic : Verdict A

infixl 5 ◌>>=◌ ◌>>◌
abbrev pub ◌>>=◌ {ℓ κ} : {A : Type ℓ} {B : Type κ} → Verdict A → (A → Verdict B) → Verdict B
accepted a >>= f = f a
rejected e >>= f = rejected e
panic >>= f = panic

abbrev pub ◌>>◌ {ℓ} : {B : Type ℓ} → Verdict (Unit {0}) → Verdict B → Verdict B
m >> k = m >>= λ _. k

abbrev pub read {ℓ} : {A : Type ℓ} → Option A → Verdict A
read none = panic
read (some a) = accepted a
