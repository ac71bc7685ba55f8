-- ===== src/Verifier/Verify/Accepted.antt =====
-- What the verifier has checked of a program that it accepts.
use aeneas2isabelle.Prelude.{
  ℕ, zero, suc, ◌+◌, ◌*◌, ◌/◌, ◌≤◌, ◌<◌, ◌≡◌, ◌≢◌, refl, sym, subst, true, not, Option, none, some,
  List, arith, leb, ltb, length, inl, inr, ◌⊎◌,
}
use aeneas2isabelle.Prelude.Int.{ℤ, pos, negsuc, ◌+ℤ◌}
use aeneas2isabelle.Ebpf.Opcodes.{insn_size}
use aeneas2isabelle.Ebpf.Insn.{Insn, get_insn}
use aeneas2isabelle.Program.{SbpfVersion}
use aeneas2isabelle.Verifier.Types.{
  Verdict, accepted, rejected, panic, ◌>>=◌, read, jump_out_of_code,
}
use aeneas2isabelle.Verifier.Checks.{
  reject_if, check_target, check_prog_len, check_registers, check_jmp_offset,
}
use aeneas2isabelle.Verifier.Arms.{
  Check, jump, load_dw, plain, store, nonzero, endian, callx, shift, aligned,
}
use aeneas2isabelle.Verifier.Verify.{
  check_of, run_check, known, is_store, after_arm, verify_insn, verify_loop, verify,
}
use aeneas2isabelle.Verifier.Verify.Returns.{reject_if-eq-accepted}

-- The program counters that reading a program instruction by instruction from `p` stops at: a
-- two-slot instruction takes the next slot with it.
pub data IsReadFrom (prog : List ℕ) (version : SbpfVersion) : ℕ → ℕ → Type 0 where
  here : (k : ℕ) → IsReadFrom prog version k k
  next :
      (p k : ℕ) (i : Insn) (check : Check)
      → get_insn prog p ≡ some i
      → check_of version i ≡ some check
      → IsReadFrom prog version (after_arm check p + 1) k
      → IsReadFrom prog version p k

pub bind-eq-accepted :
    {A B : Type 0} (m : Verdict A) (f : A → Verdict B) {b : B}
    → m >>= f ≡ accepted b
    → (a : A) × (m ≡ accepted a) × (f a ≡ accepted b)
bind-eq-accepted (accepted a) f h = (a, refl, h)
bind-eq-accepted (rejected e) f h = cc
bind-eq-accepted panic f h = cc

pub read-eq-accepted : {A : Type 0} (o : Option A) {a : A} → read o ≡ accepted a → o ≡ some a
read-eq-accepted none h = cc
read-eq-accepted (some a) h = cc

known-eq-accepted :
    (o : Option Check) (opcode p : ℕ) {c : Check} → known o opcode p ≡ accepted c → o ≡ some c
known-eq-accepted none opcode p h = cc
known-eq-accepted (some a) opcode p h = cc

-- What was checked of the instruction at a program counter.
pub record IsChecked (prog : List ℕ) (version : SbpfVersion) (p : ℕ) (i : Insn) (check : Check)
    : Type 0 where
  pub found : get_insn prog p ≡ some i
  pub arm : check_of version i ≡ some check
  pub passed : run_check check prog i p version ≡ accepted tt
  pub registers : check_registers i (is_store check) (after_arm check p) version ≡ accepted tt

verify_insn-eq-accepted :
    (prog : List ℕ) (version : SbpfVersion) (p q : ℕ)
    → verify_insn prog version p ≡ accepted q
    → (i : Insn) × (check : Check) × IsChecked prog version p i check × (q ≡ after_arm check p + 1)
unfolding verify_insn
verify_insn-eq-accepted prog version p q h =
    let (i, e₁, h₁) = bind-eq-accepted (read (get_insn prog p)) _ h in
    let (check, e₂, h₂) = bind-eq-accepted (known (check_of version i) i.opc p) _ h₁ in
    let (_, e₃, h₃) = bind-eq-accepted (run_check check prog i p version) _ h₂ in
    let (_, e₄, h₄) =
      bind-eq-accepted (check_registers i (is_store check) (after_arm check p) version) _ h₃ in
    (
      i,
      check,
      record {
        found = read-eq-accepted (get_insn prog p) e₁;
        arm = known-eq-accepted (check_of version i) i.opc p e₂;
        passed = e₃;
        registers = e₄;
      },
      cc,
    )

after_arm-le : (check : Check) (p : ℕ) → p ≤ after_arm check p
after_arm-le plain p = omega arith
after_arm-le store p = omega arith
after_arm-le load_dw p = omega arith
after_arm-le nonzero p = omega arith
after_arm-le endian p = omega arith
after_arm-le jump p = omega arith
after_arm-le callx p = omega arith
after_arm-le (shift n) p = omega arith
after_arm-le (aligned n) p = omega arith

IsReadFrom-le :
    (prog : List ℕ) (version : SbpfVersion) (p k : ℕ) → IsReadFrom prog version p k → p ≤ k
IsReadFrom-le prog version p k (here _) = omega arith
IsReadFrom-le prog version p k (next _ _ i check e c r) =
    omega (arith, after_arm-le check p, IsReadFrom-le prog version (after_arm check p + 1) k r)

pub same_check :
    (prog : List ℕ) (version : SbpfVersion) (p : ℕ) (i j : Insn) (check other : Check)
    → IsChecked prog version p i check
    → get_insn prog p ≡ some j
    → check_of version j ≡ some other
    → other ≡ check
same_check prog version p i j check other h e c =
    let found : get_insn prog p ≡ some i = h.found in
    let arm : check_of version i ≡ some check = h.arm in let same : i ≡ j = cc in cc

-- Reading goes on behind a checked instruction, unless it stops at it.
advance :
    (prog : List ℕ) (version : SbpfVersion) (p k : ℕ) (i : Insn) (check : Check)
    → IsChecked prog version p i check
    → IsReadFrom prog version p k
    → (p ≡ k) ⊎ IsReadFrom prog version (after_arm check p + 1) k
advance prog version p k i check h (here _) = inl refl
advance prog version p k i check h (next _ _ j other e c r) = inr (
    subst (λ a. IsReadFrom prog version (after_arm a p + 1) k)
      (same_check prog version p i j check other h e c) r)

-- The loop checks every instruction that it reads.
verify_loop-IsChecked :
    (rounds : ℕ) (prog : List ℕ) (version : SbpfVersion) (p q k : ℕ)
    → length prog / insn_size ≤ p + rounds
    → verify_loop rounds prog version p ≡ accepted q
    → IsReadFrom prog version p k
    → (k + 1) * insn_size ≤ length prog
    → (i : Insn) × (check : Check) × IsChecked prog version k i check
unfolding verify_loop
verify_loop-IsChecked zero prog version p q k n h r inside =
    absurd (omega (arith, IsReadFrom-le prog version p k r))
verify_loop-IsChecked (suc rounds) prog version p q k n h r inside =
    let more : leb ((p + 1) * insn_size) (length prog) ≡ true =
      ground (arith, IsReadFrom-le prog version p k r) in
    let h' = rw more at h in
    let (m, e, h₁) = bind-eq-accepted (verify_insn prog version p) _ h' in
    let (i, check, checked, step) = verify_insn-eq-accepted prog version p m e in
    elim (advance prog version p k i check checked r) [
      | inl same ↦ (i, check, subst (λ (a : ℕ). IsChecked prog version a i check) same checked)
      | inr rest ↦
          verify_loop-IsChecked rounds prog version m q k (omega (arith, after_arm-le check p)) h₁
            (rw step rest) inside
    ]

-- Of a program that the verifier accepts, every instruction that reading it from the start stops
-- at has an arm, and passed the check of that arm and the check of its registers.
pub verify-IsChecked :
    (prog : List ℕ) (version : SbpfVersion) (k : ℕ)
    → verify prog version ≡ accepted tt
    → IsReadFrom prog version 0 k
    → (k + 1) * insn_size ≤ length prog
    → (i : Insn) × (check : Check) × IsChecked prog version k i check
unfolding verify
verify-IsChecked prog version k h r inside =
    let (_, _, h₁) = bind-eq-accepted (check_prog_len prog) _ h in
    let (q, e, _) = bind-eq-accepted (verify_loop (length prog / insn_size) prog version 0) _ h₁ in
    verify_loop-IsChecked (length prog / insn_size) prog version 0 q k (omega arith) e r inside

check_target-eq-accepted :
    (prog : List ℕ) (p n : ℕ) (dst : ℤ)
    → check_target prog p n dst ≡ accepted tt
    → (t : ℕ) × (target : Insn) × (dst ≡ pos t)
      × (t < n)
      × (get_insn prog t ≡ some target)
      × (target.opc ≢ 0)
check_target-eq-accepted prog p n (negsuc m) h = cc
check_target-eq-accepted prog p n (pos t) h =
    let (_, e₁, h₁) = bind-eq-accepted (reject_if (not (ltb t n)) (jump_out_of_code t p)) _ h in
    let (target, e₂, h₂) = bind-eq-accepted (read (get_insn prog t)) _ h₁ in
    (
      t,
      target,
      refl,
      ground (arith, reject_if-eq-accepted _ _ e₁),
      read-eq-accepted (get_insn prog t) e₂,
      ground (arith, reject_if-eq-accepted _ _ h₂),
    )

pub jump-eq-accepted :
    (prog : List ℕ) (version : SbpfVersion) (k : ℕ) (i j : Insn)
    → get_insn prog k ≡ some i
    → run_check jump prog j k version ≡ accepted tt
    → (t : ℕ) × (target : Insn) × (pos k +ℤ pos 1 +ℤ i.off ≡ pos t)
      × (t < length prog / insn_size)
      × (get_insn prog t ≡ some target)
      × (target.opc ≢ 0)
unfolding run_check check_jmp_offset
jump-eq-accepted prog version k i j found passed =
    check_target-eq-accepted prog k (length prog / insn_size) (pos k +ℤ pos 1 +ℤ i.off)
      (rw found at passed)

-- In a program that the verifier accepts, the target of every jump that reading it stops at is an
-- instruction of the program, and not the second slot of a two-slot instruction.
pub verify-jumps :
    (prog : List ℕ) (version : SbpfVersion) (k : ℕ) (i : Insn)
    → verify prog version ≡ accepted tt
    → IsReadFrom prog version 0 k
    → (k + 1) * insn_size ≤ length prog
    → get_insn prog k ≡ some i
    → check_of version i ≡ some jump
    → (t : ℕ) × (target : Insn) × (pos k +ℤ pos 1 +ℤ i.off ≡ pos t)
      × (t < length prog / insn_size)
      × (get_insn prog t ≡ some target)
      × (target.opc ≢ 0)
verify-jumps prog version k i h r inside found arm =
    let (j, check, checked) = verify-IsChecked prog version k h r inside in
    let passed : run_check jump prog j k version ≡ accepted tt =
      subst (λ c. run_check c prog j k version ≡ accepted tt)
        (sym (same_check prog version k j i check jump checked found arm)) checked.passed in
    jump-eq-accepted prog version k i j found passed
