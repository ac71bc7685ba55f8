-- ===== src/Interpreter/Safety/Exit.antt =====
-- A return goes on inside the program.
use aeneas2isabelle.Prelude.{
  ℕ, ◌≤◌, ◌<◌, ◌≡◌, refl, ◌&&◌, List, ltb, length, get_elem?-lt, length-set, set, arith, Bool-cases,
  inl, inr, ◌==◌, ◌∙◌,
}
use aeneas2isabelle.Ebpf.Opcodes.{frame_ptr_reg}
use aeneas2isabelle.Interpreter.Types.{
  exceeded_max_instructions, Executable, Host, CallFrame, Interpreter,
}
use aeneas2isabelle.Interpreter.Calls.{exit}
use aeneas2isabelle.Interpreter.Safety.{goes, ends, >>=-Safe, IsSound}
use aeneas2isabelle.Interpreter.Safety.Frames.{
  read_reg-Safe, write_reg-Safe, throw_error-Safe, length-restore_scratch,
}
use aeneas2isabelle.Interpreter.Safety.Calls.{checked_sub-Safe}
use aeneas2isabelle.Interpreter.Safety.Targets.{SafeBody}

module _ {C : Type 0} (host : Host C) (executable : Executable) where
  returned-IsSound :
      (s : Interpreter C) (call_depth : ℕ) (frame : CallFrame) (reg : List ℕ)
      → IsSound host executable s
      → call_depth ≤ s.vm.call_depth
      → length reg ≡ 12
      → IsSound host executable
          (record s { vm = record s.vm { call_depth = call_depth }; reg = reg })
  returned-IsSound s call_depth frame reg h less e = record {
    reg_length = e;
    registers_length = h.registers_length;
    depth = omega (arith, h.depth);
    frames_length = h.frames_length;
    frames = λ i f below. h.frames i f (omega arith);
    due = h.due;
    remaining = h.remaining;
  }

  pub exit-Safe :
      (s : Interpreter C)
      → IsSound host executable s
      → SafeBody host executable s (exit host executable s)
  unfolding exit
  exit-Safe s h = elim (Bool-cases (s.vm.call_depth == 0)) [
    | inl root ↦
        rw root
          (elim (Bool-cases (
            executable.config.enable_instruction_meter
            && ltb s.vm.previous_instruction_meter s.vm.due_insn_count)) [
              | inl e ↦ rw e (throw_error-Safe s exceeded_max_instructions h.reg_length)
              | inr e ↦ rw e (
                  >>=-Safe _ _
                    (read_reg-Safe {P = λ _. Unit} s 0 h.reg_length (omega arith) (λ _ _. tt))
                    (λ value _. ends _))
            ])
    | inr inner ↦ rw inner (
        >>=-Safe _ _ (checked_sub-Safe s.vm.call_depth 1 (ground arith)) (λ call_depth e.
          let below : call_depth < s.vm.call_depth = ground arith in
          let (frame, found) =
            get_elem?-lt s.call_frames call_depth (omega (arith, h.depth, h.frames_length)) in
          let (target, saved) = h.frames call_depth frame below found in
          rw found (
            >>=-Safe _ _
              (write_reg-Safe
                {P = λ t. t ≡ record s { reg = set s.reg frame_ptr_reg frame.frame_pointer }} s
                frame_ptr_reg frame.frame_pointer h.reg_length (omega arith) refl)
              (λ restored e₁. rw e₁ (
                goes _ (record {
                  sound = returned-IsSound s call_depth frame _ h (omega arith) (
                      length-restore_scratch host executable frame.caller_saved_registers _ saved
                        (length-set s.reg frame_ptr_reg frame.frame_pointer ∙ h.reg_length));
                  inside = target;
                  cheaper = omega arith;
                }))))))
  ]
