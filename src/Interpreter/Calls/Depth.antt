-- ===== src/Interpreter/Calls/Depth.antt =====
-- The depth of calls.
use aeneas2isabelle.Prelude.{
  ℕ, ◌+◌, ◌*◌, ◌<◌, ◌≡◌, ◌≢◌, ◌⊎◌, ◌∙◌, get_elem?-lt, true, refl, some, length, get_elem?, set,
  arith, Bool-cases, inl, inr, ◌==◌, ltb, if◌then◌else◌,
}
use aeneas2isabelle.Ebpf.Opcodes.{frame_ptr_reg}
use aeneas2isabelle.Program.{manual_stack_frame_bump}
use aeneas2isabelle.Interpreter.Types.{
  err, call_depth_exceeded, Executable, Interpreter, running, stopped, checked, u64_end,
}
use aeneas2isabelle.Interpreter.Words.{wrapping_add}
use aeneas2isabelle.Interpreter.Frames.{
  pc_reg, with_frame, throw_error, bump_frame, push_frame, num_frames,
}

-- The state before a call: the registers and the frame of the current depth are there, and the next
-- program counter, the next depth and the size of a frame are words.
pub record IsCallable {C : Type 0} (executable : Executable) (s : Interpreter C) : Type 0 where
  pub registers : length s.reg ≡ 12
  pub frame : s.vm.call_depth < length s.call_frames
  pub depth : s.vm.call_depth + 1 < u64_end
  pub frame_size : executable.config.stack_frame_size * num_frames executable < u64_end
  pub pc : (pc : ℕ) → get_elem? s.reg pc_reg ≡ some pc → pc + 1 < u64_end

checked-running : {C : Type 0} (n : ℕ) → n < u64_end → checked {C = C} n ≡ running n
checked-running n h = let fits : ltb n u64_end ≡ true = ground arith in rw fits refl

module _ {C : Type 0} (executable : Executable) where
  -- The end of the program by a call, or the state that the call goes on with.
  abbrev pub IsRefused : Interpreter C → Interpreter C → Type 0
  IsRefused s t =
      (push_frame executable s ≡ stopped t)
      × (t.vm.program_result ≡ err call_depth_exceeded)
      × (t.vm.call_depth ≡ executable.config.max_call_depth)

  abbrev pub IsPushed : Interpreter C → Interpreter C → Type 0
  IsPushed s t =
      (push_frame executable s ≡ running t)
      × (t.vm.call_depth ≡ s.vm.call_depth + 1)
      × (t.vm.program_result ≡ s.vm.program_result)

  bump_frame-running :
      (s : Interpreter C)
      → length s.reg ≡ 12
      → executable.config.stack_frame_size * num_frames executable < u64_end
      → (t : Interpreter C) × (bump_frame executable s ≡ running t)
        × (t.vm.call_depth ≡ s.vm.call_depth)
        × (t.vm.program_result ≡ s.vm.program_result)
  unfolding bump_frame
  bump_frame-running s many size = elim (Bool-cases (manual_stack_frame_bump executable.version)) [
    | inl e ↦ (s, rw e refl, refl, refl)
    | inr e ↦
        let (fp, at) = get_elem?-lt s.reg frame_ptr_reg (omega arith) in
        let product = checked-running {C = C} _ size in
        let writable : ltb frame_ptr_reg (length s.reg) ≡ true = ground arith in
        (
          record s {
            reg =
                set s.reg frame_ptr_reg
                  (wrapping_add 64 fp (executable.config.stack_frame_size * num_frames executable));
          },
          rw (e, product, at, writable) refl,
          refl,
          refl,
        )
  ]

  pushed :
      (s : Interpreter C) (frame_pointer pc : ℕ)
      → IsCallable executable s
      → get_elem? s.reg pc_reg ≡ some pc
      → push_frame executable s ≡ (
          if s.vm.call_depth + 1 == executable.config.max_call_depth
          then throw_error
              (with_frame s frame_pointer (pc + 1) (s.vm.call_depth + 1))
              call_depth_exceeded
          else bump_frame executable (with_frame s frame_pointer (pc + 1) (s.vm.call_depth + 1)))
      → ((s.vm.call_depth + 1 ≡ executable.config.max_call_depth)
          × (t : Interpreter C) × IsRefused s t)
        ⊎ ((s.vm.call_depth + 1 ≢ executable.config.max_call_depth)
            × (t : Interpreter C) × IsPushed s t)
  unfolding throw_error
  pushed s fp pc callable at_pc e =
      elim (Bool-cases (s.vm.call_depth + 1 == executable.config.max_call_depth)) [
        | inl full ↦
            let is_max : s.vm.call_depth + 1 ≡ executable.config.max_call_depth = ground arith in
            let w = with_frame s fp (pc + 1) (s.vm.call_depth + 1) in
            inl (
              is_max,
              record w {
                vm = record w.vm {
                  registers = set w.vm.registers pc_reg pc;
                  program_result = err call_depth_exceeded;
                };
              },
              (e ∙ rw (full, at_pc) refl, refl, is_max),
            )
        | inr more ↦
            let (t, runs, depth, result) =
              bump_frame-running (with_frame s fp (pc + 1) (s.vm.call_depth + 1)) callable.registers
                callable.frame_size in
            inr (λ is_max. ground arith, t, (e ∙ rw more runs, depth, result))
      ]

  -- From a state with the registers and the frame that a call needs, and room for its numbers, a
  -- call ends the program exactly if it would reach the configured depth, with the error for that
  -- and the depth counted; and otherwise it goes on one level deeper.
  pub push_frame-cases :
      (s : Interpreter C)
      → IsCallable executable s
      → ((s.vm.call_depth + 1 ≡ executable.config.max_call_depth)
          × (t : Interpreter C) × IsRefused s t)
        ⊎ ((s.vm.call_depth + 1 ≢ executable.config.max_call_depth)
            × (t : Interpreter C) × IsPushed s t)
  unfolding push_frame
  push_frame-cases s callable =
      let (frame, at_frame) = get_elem?-lt s.call_frames s.vm.call_depth callable.frame in
      let (fp, at_fp) =
        get_elem?-lt s.reg frame_ptr_reg (let many = callable.registers in omega arith) in
      let (pc, at_pc) = get_elem?-lt s.reg pc_reg (let many = callable.registers in omega arith) in
      let target = checked-running {C = C} (pc + 1) (callable.pc pc at_pc) in
      let depth = checked-running {C = C} (s.vm.call_depth + 1) callable.depth in
      pushed s fp pc callable at_pc (rw (at_frame, at_fp, at_pc, target, depth) refl)
