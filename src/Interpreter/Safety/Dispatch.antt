-- ===== src/Interpreter/Safety/Dispatch.antt =====
-- The arm of an instruction that the verifier has checked.
use aeneas2isabelle.Prelude.{ℕ, ◌+◌, ◌≡◌, Bool, true, arith, subst}
use aeneas2isabelle.Ebpf.Insn.{Insn}
use aeneas2isabelle.Verifier.Types.{accepted}
use aeneas2isabelle.Verifier.Arms.{Check, nonzero, jump, callx}
use aeneas2isabelle.Verifier.Verify.{run_check}
use aeneas2isabelle.Interpreter.Types.{Executable, Host, Interpreter}
use aeneas2isabelle.Interpreter.Arms.{
  Body, Divisor, set_imm, set_dst, set_src, set_both, divide_imm, divide_reg, load, store_imm,
  store_reg, convert, jump_always, jump_imm, jump_reg, load_dw, call_register, call_immediate,
  exit_frame,
}
use aeneas2isabelle.Interpreter.Step.{jump_if, run_body, swap_width}
use aeneas2isabelle.Interpreter.Step.Supported.{relies_on}
use aeneas2isabelle.Interpreter.Safety.{>>=-Safe, IsVerified, IsMetered}
use aeneas2isabelle.Interpreter.Safety.Targets.{SafeBody, call_reg-Safe, call_imm-Safe}
use aeneas2isabelle.Interpreter.Safety.Exit.{exit-Safe}
use aeneas2isabelle.Interpreter.Safety.Checked.{
  nonzero-is_zero, callx_fits, jump_inside, load_dw_inside,
}
use aeneas2isabelle.Interpreter.Safety.Bodies.{
  IsAt, any_reg-Safe, set-Safe, jump_if-Safe, run_load-Safe, run_store-Safe, run_load_dw-Safe,
  divide_imm-Safe, divide_reg-Safe, run_convert-Safe,
}

-- The checks that the bodies rely on.
relies_on-jump : (check : Check) → relies_on jump_always check ≡ true → check ≡ jump
relies_on-jump check h = ground arith

relies_on-load_dw : (check : Check) → relies_on load_dw check ≡ true → check ≡ Check.load_dw
relies_on-load_dw check h = ground arith

relies_on-callx : (check : Check) → relies_on call_register check ≡ true → check ≡ callx
relies_on-callx check h = ground arith

relies_on-nonzero :
    (divisor : Divisor) (overflows : ℕ → Bool) (f : ℕ → ℕ) (check : Check)
    → relies_on (divide_imm divisor overflows f) check ≡ true
    → check ≡ nonzero
relies_on-nonzero divisor overflows f check h = ground arith

module _ {C : Type 0} (host : Host C) (executable : Executable) where
  -- The check of an instruction passed.
  abbrev Passed : Check → ℕ → Insn → Type 0
  Passed check pc insn =
      run_check check executable.text_bytes insn pc executable.version ≡ accepted tt

  jump-Safe :
      (pc : ℕ) (condition : Bool) (insn : Insn) (s : Interpreter C)
      → IsVerified executable
      → IsAt host executable pc insn s
      → Passed jump pc insn
      → SafeBody host executable s (jump_if s insn (pc + 1) condition)
  jump-Safe pc condition insn s v h p =
      jump_if-Safe host executable pc condition insn s h
        (jump_inside executable.text_bytes insn pc executable.version h.fetched.found v.small p)

  pub run_body-Safe :
      (body : Body) (check : Check) (pc : ℕ) (insn : Insn) (s : Interpreter C)
      → IsMetered host
      → IsVerified executable
      → IsAt host executable pc insn s
      → Passed check pc insn
      → relies_on body check ≡ true
      → SafeBody host executable s (run_body host executable body insn (pc + 1) s)
  unfolding run_body
  run_body-Safe (set_imm n) check pc insn s m v h p r = set-Safe host executable pc n insn s h
  run_body-Safe (set_dst f) check pc insn s m v h p r =
      >>=-Safe _ _ (any_reg-Safe host executable s insn.dst h.sound h.dst)
        (λ d _. set-Safe host executable pc (f d) insn s h)
  run_body-Safe (set_src f) check pc insn s m v h p r =
      >>=-Safe _ _ (any_reg-Safe host executable s insn.src h.sound h.src)
        (λ d _. set-Safe host executable pc (f d) insn s h)
  run_body-Safe (set_both f) check pc insn s m v h p r =
      >>=-Safe _ _ (any_reg-Safe host executable s insn.dst h.sound h.dst) (λ d _.
        >>=-Safe _ _ (any_reg-Safe host executable s insn.src h.sound h.src)
          (λ e _. set-Safe host executable pc (f d e) insn s h))
  run_body-Safe (divide_imm divisor overflows f) check pc insn s m v h p r =
      let passed : Passed nonzero pc insn =
        subst (λ c. Passed c pc insn) (relies_on-nonzero divisor overflows f check r) p in
      >>=-Safe _ _ (any_reg-Safe host executable s insn.dst h.sound h.dst) (λ d _.
        divide_imm-Safe host executable (overflows d) _ pc (f d) insn s h (
          nonzero-is_zero divisor executable.text_bytes insn pc executable.version h.fetched.small
            passed))
  run_body-Safe (divide_reg zero_divisor overflows f) check pc insn s m v h p r =
      >>=-Safe _ _ (any_reg-Safe host executable s insn.src h.sound h.src) (λ e _.
        divide_reg-Safe host executable (zero_divisor e) (λ d. overflows d e) (λ d. f d e) pc insn s
          h)
  run_body-Safe (load size) check pc insn s m v h p r =
      run_load-Safe host executable size pc insn s m h
  run_body-Safe (store_imm size) check pc insn s m v h p r =
      run_store-Safe host executable size _ pc insn s m h
  run_body-Safe (store_reg size) check pc insn s m v h p r =
      >>=-Safe _ _ (any_reg-Safe host executable s insn.src h.sound h.src)
        (λ e _. run_store-Safe host executable size _ pc insn s m h)
  run_body-Safe (convert f) check pc insn s m v h p r =
      run_convert-Safe host executable (swap_width insn.imm) f pc insn s h
  run_body-Safe jump_always check pc insn s m v h p r =
      jump-Safe pc true insn s v h (subst (λ c. Passed c pc insn) (relies_on-jump check r) p)
  run_body-Safe (jump_imm condition) check pc insn s m v h p r =
      >>=-Safe _ _ (any_reg-Safe host executable s insn.dst h.sound h.dst) (λ d _.
        jump-Safe pc (condition d) insn s v h
          (subst (λ c. Passed c pc insn) (relies_on-jump check r) p))
  run_body-Safe (jump_reg condition) check pc insn s m v h p r =
      >>=-Safe _ _ (any_reg-Safe host executable s insn.dst h.sound h.dst) (λ d _.
        >>=-Safe _ _ (any_reg-Safe host executable s insn.src h.sound h.src) (λ e _.
          jump-Safe pc (condition d e) insn s v h
            (subst (λ c. Passed c pc insn) (relies_on-jump check r) p)))
  run_body-Safe load_dw check pc insn s m v h p r = run_load_dw-Safe host executable pc insn s v h (
      load_dw_inside executable.text_bytes insn pc executable.version v.verified
        (subst (λ c. Passed c pc insn) (relies_on-load_dw check r) p))
  run_body-Safe call_register check pc insn s m v h p r =
      call_reg-Safe host executable insn pc s v h.sound h.at h.inside (
        callx_fits executable.text_bytes insn pc executable.version
          (subst (λ c. Passed c pc insn) (relies_on-callx check r) p))
  run_body-Safe call_immediate check pc insn s m v h p r =
      call_imm-Safe host executable insn pc s m v h.sound h.at h.inside
  run_body-Safe exit_frame check pc insn s m v h p r = exit-Safe host executable s h.sound
