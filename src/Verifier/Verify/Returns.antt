-- ===== src/Verifier/Verify/Returns.antt =====
-- The verifier never reads outside the program.
use aeneas2isabelle.Prelude.{
  ℕ, zero, suc, ◌+◌, ◌*◌, ◌/◌, ◌%◌, ◌^◌, bit_and, ◌≤◌, ◌<◌, ◌≡◌, refl, Bool, true, false, not,
  Option, none, some, List, if◌then◌else◌, arith, leb, ltb, ◌==◌, length, get_elem?-lt, Bool-cases,
  inl, inr,
}
use aeneas2isabelle.Prelude.Int.{ℤ, pos, negsuc, ◌+ℤ◌, to_signed}
use aeneas2isabelle.Ebpf.Opcodes.{insn_size}
use aeneas2isabelle.Ebpf.Insn.{
  Insn, get_insn, get_insn_unchecked, is_pc_in_program, read_i16, read_i32, usize_max,
}
use aeneas2isabelle.Program.{SbpfVersion}
use aeneas2isabelle.Verifier.Types.{
  VerifierError, lddw_cannot_be_last, program_length_not_multiple, jump_out_of_code,
  invalid_source_register, Verdict, accepted, rejected, panic, ◌>>=◌, read,
}
use aeneas2isabelle.Verifier.Checks.{
  reject_if, check_prog_len, check_imm_nonzero, check_imm_endian, check_imm_aligned, check_load_dw,
  check_target, check_jmp_offset, check_registers, check_destination, check_imm_shift,
  check_callx_register,
}
use aeneas2isabelle.Verifier.Arms.{
  Check, plain, store, load_dw, nonzero, endian, jump, callx, shift, aligned,
}
use aeneas2isabelle.Verifier.Verify.{
  check_of, run_check, known, is_store, after_arm, verify_insn, verify_loop, verify,
}

-- The instructions of a program can be read.
pub get_insn_in_program :
    (prog : List ℕ) (pc : ℕ)
    → length prog < usize_max
    → (pc + 1) * insn_size ≤ length prog
    → (i : Insn) × (get_insn prog pc ≡ some i)
unfolding get_insn get_insn_unchecked is_pc_in_program read_i16 read_i32
get_insn_in_program prog pc small inside =
    let (b0, e0) = get_elem?-lt prog (8 * pc) (omega arith) in
    let (b1, e1) = get_elem?-lt prog (8 * pc + 1) (omega arith) in
    let (b2, e2) = get_elem?-lt prog (8 * pc + 2) (omega arith) in
    let (b3, e3) = get_elem?-lt prog (8 * pc + 2 + 1) (omega arith) in
    let (b4, e4) = get_elem?-lt prog (8 * pc + 4) (omega arith) in
    let (b5, e5) = get_elem?-lt prog (8 * pc + 4 + 1) (omega arith) in
    let (b6, e6) = get_elem?-lt prog (8 * pc + 4 + 2) (omega arith) in
    let (b7, e7) = get_elem?-lt prog (8 * pc + 4 + 3) (omega arith) in
    let here : is_pc_in_program prog pc ≡ true = unfold is_pc_in_program in ground arith in
    (
      record {
        ptr = pc;
        opc = b0;
        dst = bit_and b1 0x0f;
        src = bit_and b1 0xf0 / 2 ^ 4;
        off = to_signed (2 ^ 15) (2 ^ 16) (b2 + 256 * b3);
        imm = to_signed (2 ^ 31) (2 ^ 32) (b4 + 256 * (b5 + 256 * (b6 + 256 * b7)));
      },
      rw (here, e0, e1, e2, e3, e4, e5, e6, e7),
    )

abbrev pub Returns : {A : Type 0} → Verdict A → Type 0
Returns m = m ≡ panic → ⊥

bind-Returns :
    {A B : Type 0} (m : Verdict A) (f : A → Verdict B)
    → Returns m
    → ((a : A) → m ≡ accepted a → Returns (f a))
    → Returns (m >>= f)
bind-Returns (accepted a) f h k = k a refl
bind-Returns (rejected e) f h k = λ p. cc
bind-Returns panic f h k = λ p. h refl

reject_if-Returns : (b : Bool) (e : VerifierError) → Returns (reject_if b e)
reject_if-Returns true e p = cc
reject_if-Returns false e p = cc

get_insn-Returns :
    (prog : List ℕ) (pc : ℕ)
    → length prog < usize_max
    → (pc + 1) * insn_size ≤ length prog
    → Returns (read (get_insn prog pc))
get_insn-Returns prog pc small inside p =
    let (i, e) = get_insn_in_program prog pc small inside in cc

pub reject_if-eq-accepted :
    (b : Bool) (e : VerifierError) {a : Unit {0}} → reject_if b e ≡ accepted a → b ≡ false
reject_if-eq-accepted true e h = cc
reject_if-eq-accepted false e h = refl

check_load_dw-Returns :
    (prog : List ℕ) (p : ℕ)
    → length prog < usize_max
    → length prog % insn_size ≡ 0
    → Returns (check_load_dw prog p)
unfolding check_load_dw
check_load_dw-Returns prog p small whole =
    bind-Returns (reject_if (leb (length prog) ((p + 1) * insn_size)) lddw_cannot_be_last) _
      (reject_if-Returns _ _)
      λ _ more.
        bind-Returns (read (get_insn prog (p + 1))) _
          (get_insn-Returns prog (p + 1) small (ground (arith, reject_if-eq-accepted _ _ more)))
          λ i _. reject_if-Returns _ _

check_target-Returns :
    (prog : List ℕ) (p : ℕ) (dst : ℤ)
    → length prog < usize_max
    → length prog % insn_size ≡ 0
    → Returns (check_target prog p (length prog / insn_size) dst)
check_target-Returns prog p (negsuc n) small whole = λ e. cc
check_target-Returns prog p (pos dst) small whole =
    bind-Returns (reject_if (not (ltb dst (length prog / insn_size))) (jump_out_of_code dst p)) _
      (reject_if-Returns _ _)
      λ _ more.
        bind-Returns (read (get_insn prog dst)) _
          (get_insn-Returns prog dst small (ground (arith, reject_if-eq-accepted _ _ more)))
          λ i _. reject_if-Returns _ _

check_jmp_offset-Returns :
    (prog : List ℕ) (p : ℕ)
    → length prog < usize_max
    → length prog % insn_size ≡ 0
    → (p + 1) * insn_size ≤ length prog
    → Returns (check_jmp_offset prog p (length prog / insn_size))
unfolding check_jmp_offset
check_jmp_offset-Returns prog p small whole inside =
    bind-Returns (read (get_insn prog p)) _ (get_insn-Returns prog p small inside)
      λ i _. check_target-Returns prog p (pos p +ℤ pos 1 +ℤ i.off) small whole

if-Returns : (b : Bool) (e : VerifierError) → Returns (if b then accepted tt else rejected e)
if-Returns true e p = cc
if-Returns false e p = cc

check_destination-Returns :
    (i : Insn) (writes : Bool) (p : ℕ) (version : SbpfVersion)
    → Returns (check_destination i writes p version)
check_destination-Returns i writes p version = λ e. ground (arith, e)

check_registers-Returns :
    (i : Insn) (writes : Bool) (p : ℕ) (version : SbpfVersion)
    → Returns (check_registers i writes p version)
unfolding check_registers
check_registers-Returns i writes p version =
    bind-Returns (reject_if (ltb 10 i.src) (invalid_source_register p)) _ (reject_if-Returns _ _)
      λ _ _. check_destination-Returns i writes p version

run_check-Returns :
    (check : Check) (prog : List ℕ) (i : Insn) (p : ℕ) (version : SbpfVersion)
    → length prog < usize_max
    → length prog % insn_size ≡ 0
    → (p + 1) * insn_size ≤ length prog
    → Returns (run_check check prog i p version)
unfolding run_check check_imm_nonzero check_imm_endian check_imm_aligned check_imm_shift
    check_callx_register
run_check-Returns plain prog i p version small whole inside = λ e. cc
run_check-Returns store prog i p version small whole inside = λ e. cc
run_check-Returns load_dw prog i p version small whole inside =
    check_load_dw-Returns prog p small whole
run_check-Returns nonzero prog i p version small whole inside = reject_if-Returns _ _
run_check-Returns endian prog i p version small whole inside = if-Returns _ _
run_check-Returns jump prog i p version small whole inside =
    check_jmp_offset-Returns prog p small whole inside
run_check-Returns callx prog i p version small whole inside = reject_if-Returns _ _
run_check-Returns (shift bits) prog i p version small whole inside = reject_if-Returns _ _
run_check-Returns (aligned alignment) prog i p version small whole inside = if-Returns _ _

known-Returns : (o : Option Check) (opcode p : ℕ) → Returns (known o opcode p)
known-Returns none opcode p e = cc
known-Returns (some check) opcode p e = cc

verify_insn-Returns :
    (prog : List ℕ) (version : SbpfVersion) (p : ℕ)
    → length prog < usize_max
    → length prog % insn_size ≡ 0
    → (p + 1) * insn_size ≤ length prog
    → Returns (verify_insn prog version p)
unfolding verify_insn
verify_insn-Returns prog version p small whole inside =
    bind-Returns (read (get_insn prog p)) _ (get_insn-Returns prog p small inside) λ i _.
      bind-Returns (known (check_of version i) i.opc p) _ (known-Returns _ _ _) λ check _.
        bind-Returns (run_check check prog i p version) _
          (run_check-Returns check prog i p version small whole inside)
          λ _ _.
            bind-Returns (check_registers i (is_store check) (after_arm check p) version) _
              (check_registers-Returns i (is_store check) (after_arm check p) version) λ _ _ e. cc

verify_loop-Returns :
    (rounds : ℕ) (prog : List ℕ) (version : SbpfVersion) (p : ℕ)
    → length prog < usize_max
    → length prog % insn_size ≡ 0
    → Returns (verify_loop rounds prog version p)
unfolding verify_loop
verify_loop-Returns zero prog version p small whole = λ e. cc
verify_loop-Returns (suc rounds) prog version p small whole =
    elim (Bool-cases (leb ((p + 1) * insn_size) (length prog))) [
      | inl more ↦ rw more (
          bind-Returns (verify_insn prog version p) _
            (verify_insn-Returns prog version p small whole (ground (arith, more)))
            λ next _. verify_loop-Returns rounds prog version next small whole)
      | inr done ↦ rw done λ e. cc
    ]

check_prog_len-Returns : (prog : List ℕ) → Returns (check_prog_len prog)
unfolding check_prog_len
check_prog_len-Returns prog =
    bind-Returns (reject_if (not (length prog % insn_size == 0)) program_length_not_multiple) _
      (reject_if-Returns _ _) λ _ _. reject_if-Returns _ _

pub check_prog_len-eq-accepted :
    (prog : List ℕ) {a : Unit {0}} → check_prog_len prog ≡ accepted a → length prog % insn_size ≡ 0
unfolding check_prog_len
check_prog_len-eq-accepted prog h = ground arith

-- On a program whose length a `usize` can count, the verifier accepts or rejects, but never panics.
pub verify-Returns :
    (prog : List ℕ) (version : SbpfVersion)
    → length prog < usize_max
    → Returns (verify prog version)
unfolding verify
verify-Returns prog version small =
    bind-Returns (check_prog_len prog) _ (check_prog_len-Returns prog) λ _ h.
      bind-Returns (verify_loop (length prog / insn_size) prog version 0) _
        (verify_loop-Returns (length prog / insn_size) prog version 0 small
          (check_prog_len-eq-accepted prog h))
        λ _ _. reject_if-Returns _ _
