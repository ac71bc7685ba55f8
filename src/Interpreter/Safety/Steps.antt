-- ===== src/Interpreter/Safety/Steps.antt =====
-- The steps of the interpreter on a program that the verifier accepts.
use aeneas2isabelle.Prelude.{
  ℕ, ◌+◌, ◌*◌, ◌%◌, ◌≤◌, ◌<◌, ◌≡◌, refl, not, ◌&&◌, some, List, length, get_elem?,
  get_elem?-set_self, length-set, arith, Bool-cases, inl, inr, leb, ◌==◌, ◌∙◌,
}
use aeneas2isabelle.Ebpf.Opcodes.{insn_size}
use aeneas2isabelle.Program.{SbpfVersion}
use aeneas2isabelle.Verifier.Types.{accepted}
use aeneas2isabelle.Verifier.Checks.{reject_if, check_prog_len}
use aeneas2isabelle.Verifier.Verify.{verify}
use aeneas2isabelle.Verifier.Verify.Returns.{reject_if-eq-accepted}
use aeneas2isabelle.Verifier.Verify.Accepted.{bind-eq-accepted}
use aeneas2isabelle.Interpreter.Types.{
  exceeded_max_instructions, execution_overrun, Executable, Host, Interpreter,
}
use aeneas2isabelle.Interpreter.Frames.{pc_reg, write_reg}
use aeneas2isabelle.Interpreter.Step.{traced, run_insn, step}
use aeneas2isabelle.Interpreter.Safety.{
  Safe, >>=-Safe, Safe-map, IsVerified, IsMetered, IsSound, IsDone, program_end, allowance,
}
use aeneas2isabelle.Interpreter.Safety.Frames.{
  read_reg-Safe, write_reg-Safe, throw_error-Safe, checked-Safe, write_reg-IsSound,
}
use aeneas2isabelle.Interpreter.Safety.Fetch.{fetch}
use aeneas2isabelle.Interpreter.Safety.Stops.{verify-Stop}
use aeneas2isabelle.Interpreter.Safety.Known.{dispatch-Safe}

whole_instructions :
    (prog : List ℕ) (version : SbpfVersion)
    → verify prog version ≡ accepted tt
    → length prog % insn_size ≡ 0
unfolding verify check_prog_len
whole_instructions prog version v =
    let (_, e, _) = bind-eq-accepted (check_prog_len prog) _ v in
    let (_, e₁, _) = bind-eq-accepted (reject_if (not (length prog % insn_size == 0)) _) _ e in
    ground (arith, reject_if-eq-accepted _ _ e₁)

module _ {C : Type 0} (host : Host C) (executable : Executable) where
  -- The machine between two steps.
  pub record IsReady (s : Interpreter C) : Type 0 where
    pub sound : IsSound host executable s
    pub pc : ℕ
    pub at : get_elem? s.reg pc_reg ≡ some pc
    pub inside : pc ≤ program_end host executable

  traced-IsSound :
      (s : Interpreter C)
      → IsSound host executable s
      → IsSound host executable (traced host executable s)
  traced-IsSound s h = record {
    reg_length = h.reg_length;
    registers_length = h.registers_length;
    depth = h.depth;
    frames_length = h.frames_length;
    frames = h.frames;
    due = h.due;
    remaining = h.remaining;
  }

  write_pc-Safe :
      (before : ℕ) (done : Interpreter C × ℕ)
      → IsDone host executable before done
      → Safe
          (λ s. IsReady s × (allowance host executable s ≤ before))
          (write_reg done.0 pc_reg done.1)
  write_pc-Safe before done h =
      write_reg-Safe done.0 pc_reg done.1 h.sound.reg_length (omega arith) (
        record {
          sound =
              write_reg-IsSound host executable done.0 _
                (length-set done.0.reg pc_reg done.1 ∙ h.sound.reg_length) h.sound;
          pc = done.1;
          at = get_elem?-set_self done.0.reg pc_reg done.1 (omega (arith, h.sound.reg_length));
          inside = h.inside;
        },
        h.cheaper,
      )

  run_insn-Safe :
      (s : Interpreter C)
      → IsMetered host
      → IsVerified executable
      → IsReady s
      → Safe
          (λ t. IsReady t × (allowance host executable t ≤ allowance host executable s))
          (run_insn host executable s)
  unfolding run_insn
  run_insn-Safe s m v h =
      let whole = whole_instructions executable.text_bytes executable.version v.verified in
      >>=-Safe _ _
        (read_reg-Safe {P = λ p. p ≡ h.pc} s pc_reg h.sound.reg_length (omega arith)
          (λ p e. let e₁ = h.at in cc))
        (λ pc e₀.
          >>=-Safe _ _
            (checked-Safe {P = λ o. o ≡ pc * insn_size} (pc * insn_size)
              (omega (arith, h.inside, v.small)) refl)
            (λ offset e₁. elim (Bool-cases (leb (length executable.text_bytes) offset)) [
              | inl overrun ↦ rw overrun (throw_error-Safe s execution_overrun h.sound.reg_length)
              | inr more ↦
                  let inside : pc < program_end host executable = ground (arith, h.inside) in
                  let (insn, f) = fetch executable.text_bytes pc v.bytes v.small inside in
                  rw (more, f.unchecked)
                    (>>=-Safe _ _
                      (dispatch-Safe host executable pc insn (traced host executable s) m v
                        (traced-IsSound s h.sound) (let e₁ = h.at in cc) inside f
                        (verify-Stop executable.text_bytes executable.version pc v.verified
                          (omega arith)))
                      (λ done k. write_pc-Safe _ done k))
            ]))

  counted-IsSound :
      (s : Interpreter C) (due_insn_count : ℕ)
      → IsSound host executable s
      → due_insn_count ≤ s.vm.previous_instruction_meter
      → IsSound host executable (record s { vm = record s.vm { due_insn_count = due_insn_count } })
  counted-IsSound s due_insn_count h due = record {
    reg_length = h.reg_length;
    registers_length = h.registers_length;
    depth = h.depth;
    frames_length = h.frames_length;
    frames = h.frames;
    due = due;
    remaining = h.remaining;
  }

  -- On an executable that the verifier accepts, and a host whose instruction meter is never
  -- added to, a step from a machine whose registers, frames and program counter are in range
  -- does not panic; if the program goes on, they are in range again, and the instructions that
  -- the meter still allows are fewer.
  pub step-Safe :
      (s : Interpreter C)
      → IsMetered host
      → IsVerified executable
      → IsReady s
      → Safe
          (λ t. IsReady t × (allowance host executable t < allowance host executable s))
          (step host executable s)
  unfolding step run_insn
  step-Safe s m v h =
      elim (Bool-cases (
        executable.config.enable_instruction_meter
        && leb s.vm.previous_instruction_meter s.vm.due_insn_count)) [
          | inl spent ↦ rw spent (throw_error-Safe s exceeded_max_instructions h.sound.reg_length)
          | inr left ↦
              let more : s.vm.due_insn_count < s.vm.previous_instruction_meter =
                ground (arith, v.meter) in
              rw left (
                >>=-Safe _ _
                  (checked-Safe {P = λ n. n ≡ s.vm.due_insn_count + 1} (s.vm.due_insn_count + 1)
                    (omega (arith, m.bounded s.vm.context, h.sound.remaining)) refl)
                  (λ due e.
                    Safe-map _
                      (run_insn-Safe (record s { vm = record s.vm { due_insn_count = due } }) m v
                        (record {
                          sound = counted-IsSound s due h.sound (omega arith);
                          pc = h.pc;
                          at = h.at;
                          inside = h.inside;
                        }))
                      (λ t k. (k.0, omega (arith, k.1)))))
        ]
