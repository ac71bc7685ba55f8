-- ===== src/Interpreter/Safety/Stops.antt =====
-- Every program counter of a program that the verifier accepts is one that reading it stops at,
-- or the second slot of a two-slot instruction.
use aeneas2isabelle.Prelude.{
  ℕ, zero, suc, ◌+◌, ◌*◌, ◌≤◌, ◌≡◌, some, List, length, arith, subst, leb,
}
use aeneas2isabelle.Ebpf.Opcodes.{insn_size}
use aeneas2isabelle.Ebpf.Insn.{Insn, get_insn}
use aeneas2isabelle.Program.{SbpfVersion}
use aeneas2isabelle.Verifier.Types.{accepted, read}
use aeneas2isabelle.Verifier.Checks.{reject_if, check_load_dw}
use aeneas2isabelle.Verifier.Arms.{
  Check, plain, store, nonzero, endian, jump, callx, shift, aligned,
}
use aeneas2isabelle.Verifier.Verify.{check_of, run_check, after_arm, verify}
use aeneas2isabelle.Verifier.Verify.Returns.{reject_if-eq-accepted}
use aeneas2isabelle.Verifier.Verify.Accepted.{
  IsReadFrom, here, next, verify-IsChecked, bind-eq-accepted, read-eq-accepted,
}

module _ (prog : List ℕ) (version : SbpfVersion) where
  -- Reading goes on behind the instruction that it stops at.
  IsReadFrom-next :
      (p k : ℕ) (i : Insn) (check : Check)
      → IsReadFrom prog version p k
      → get_insn prog k ≡ some i
      → check_of version i ≡ some check
      → IsReadFrom prog version p (after_arm check k + 1)
  IsReadFrom-next p k i check (here _) e c = next p _ i check e c (here _)
  IsReadFrom-next p k i check (next _ _ j other f d r) e c =
      next p _ j other f d (IsReadFrom-next (after_arm other p + 1) k i check r e c)

  -- A program counter inside the program, of the first slot of an instruction or of the second.
  pub data Stop : ℕ → Type 0 where
    first : (k : ℕ) → IsReadFrom prog version 0 k → Stop k
    second :
        (k : ℕ) (i : Insn)
        → get_insn prog k ≡ some i
        → i.opc ≡ 0
        → IsReadFrom prog version 0 (k + 1)
        → Stop k

  second_slot :
      (p : ℕ) (i : Insn)
      → run_check Check.load_dw prog i p version ≡ accepted tt
      → (j : Insn) × (get_insn prog (p + 1) ≡ some j) × (j.opc ≡ 0)
  unfolding run_check check_load_dw
  second_slot p i h =
      let (_, _, h₁) =
        bind-eq-accepted (reject_if (leb (length prog) ((p + 1) * insn_size)) _) _ h in
      let (j, e, h₂) = bind-eq-accepted (read (get_insn prog (p + 1))) _ h₁ in
      (j, read-eq-accepted _ e, ground (arith, reject_if-eq-accepted _ _ h₂))

  after-Stop :
      (check : Check) (p : ℕ) (i : Insn)
      → IsReadFrom prog version 0 (after_arm check p + 1)
      → run_check check prog i p version ≡ accepted tt
      → Stop (p + 1)
  after-Stop plain p i r h = first _ r
  after-Stop store p i r h = first _ r
  after-Stop Check.load_dw p i r h =
      let (j, e, zero_opcode) = second_slot p i h in second _ j e zero_opcode r
  after-Stop nonzero p i r h = first _ r
  after-Stop endian p i r h = first _ r
  after-Stop jump p i r h = first _ r
  after-Stop callx p i r h = first _ r
  after-Stop (shift n) p i r h = first _ r
  after-Stop (aligned n) p i r h = first _ r

  next-Stop :
      (k : ℕ)
      → verify prog version ≡ accepted tt
      → (k + 1) * insn_size ≤ length prog
      → Stop k
      → Stop (k + 1)
  next-Stop k v inside (first _ r) =
      let (i, check, h) = verify-IsChecked prog version k v r inside in
      after-Stop check k i (IsReadFrom-next 0 k i check r h.found h.arm) h.passed
  next-Stop k v inside (second _ i e z r) = first _ r

  -- In a program that the verifier accepts, every program counter up to the end is one that
  -- reading the program from the start stops at, or the second slot of a two-slot instruction: an
  -- instruction with the opcode zero, behind which reading stops.
  pub verify-Stop :
      (k : ℕ) → verify prog version ≡ accepted tt → k * insn_size ≤ length prog → Stop k
  verify-Stop zero v inside = first 0 (here 0)
  verify-Stop (suc k) v inside =
      subst Stop (omega arith) (next-Stop k v (omega arith) (verify-Stop k v (omega arith)))
