-- ===== src/Interpreter/Safety/Frames.antt =====
-- Registers and frames are in range.
use aeneas2isabelle.Prelude.{
  ℕ, ◌+◌, ◌*◌, ◌≤◌, ◌<◌, ◌≡◌, ◌≢◌, refl, true, some, List, ◌++◌, ltb, length, get_elem?,
  get_elem?-lt, get_elem?-set_self, get_elem?-set_ne, length-set, set, take, drop, arith,
  Bool-cases, inl, inr, ◌==◌, length-append, length-take, length-drop, sym, ◌∙◌, subst, ◌&&◌,
  if◌then◌else◌,
}
use aeneas2isabelle.Ebpf.Opcodes.{frame_ptr_reg}
use aeneas2isabelle.Program.{manual_stack_frame_bump, stack_frame_gaps}
use aeneas2isabelle.Interpreter.Types.{
  EbpfError, call_depth_exceeded, Executable, Host, CallFrame, Interpreter, checked, u64_end,
}
use aeneas2isabelle.Interpreter.Frames.{
  pc_reg, read_reg, write_reg, throw_error, bump_frame, push_frame, with_frame, pushed_frame,
  scratch, restore_scratch, num_frames,
}
use aeneas2isabelle.Interpreter.Safety.{
  Safe, goes, ends, >>=-Safe, IsVerified, IsSound, program_end, allowance,
}

module _ {C : Type 0} where
  pub read_reg-Safe :
      {P : ℕ → Type 0} (s : Interpreter C) (i : ℕ)
      → length s.reg ≡ 12
      → i < 12
      → ((v : ℕ) → get_elem? s.reg i ≡ some v → P v)
      → Safe P (read_reg s i)
  read_reg-Safe s i e h k =
      let (v, found) = get_elem?-lt s.reg i (omega arith) in rw found (goes v (k v found))

  pub write_reg-Safe :
      {P : Interpreter C → Type 0} (s : Interpreter C) (i v : ℕ)
      → length s.reg ≡ 12
      → i < 12
      → P (record s { reg = set s.reg i v })
      → Safe P (write_reg s i v)
  write_reg-Safe s i v e h p =
      let inside : ltb i (length s.reg) ≡ true = ground arith in rw inside (goes _ p)

  pub throw_error-Safe :
      {A : Type 0} {P : A → Type 0} (s : Interpreter C) (error : EbpfError)
      → length s.reg ≡ 12
      → Safe P (throw_error s error)
  unfolding throw_error
  throw_error-Safe s error e =
      let (v, found) = get_elem?-lt s.reg pc_reg (omega arith) in rw found (ends _)

pub checked-Safe :
    {C : Type 0} {P : ℕ → Type 0} (n : ℕ) → n < u64_end → P n → Safe {C = C} P (checked n)
checked-Safe n h p = let small : ltb n u64_end ≡ true = ground arith in rw small (goes n p)

module _ {C : Type 0} (host : Host C) (executable : Executable) where
  -- A write to a register keeps the machine sound.
  pub write_reg-IsSound :
      (s : Interpreter C) (reg : List ℕ)
      → length reg ≡ 12
      → IsSound host executable s
      → IsSound host executable (record s { reg = reg })
  write_reg-IsSound s reg e h = record {
    reg_length = e;
    registers_length = h.registers_length;
    depth = h.depth;
    frames_length = h.frames_length;
    frames = h.frames;
    due = h.due;
    remaining = h.remaining;
  }

  length-scratch : (reg : List ℕ) → length reg ≡ 12 → length (scratch reg) ≡ 4
  length-scratch reg e = length-take 4 (drop 6 reg) (omega (arith, length-drop 6 reg (omega arith)))

  pub length-restore_scratch :
      (saved reg : List ℕ)
      → length saved ≡ 4
      → length reg ≡ 12
      → length (restore_scratch saved reg) ≡ 12
  length-restore_scratch saved reg e h = omega (
    arith,
    length-append (take 6 reg) (saved ++ drop 10 reg),
    length-append saved (drop 10 reg),
    length-take 6 reg (omega arith),
    length-drop 10 reg (omega arith),
  )

  -- The frames of a machine that is one level deeper.
  with_frame-frames :
      (s : Interpreter C) (frame_pointer target_pc : ℕ)
      → IsSound host executable s
      → target_pc ≤ program_end host executable
      → (i : ℕ) (f : CallFrame) → i < s.vm.call_depth + 1
      → get_elem? ((with_frame s frame_pointer target_pc (s.vm.call_depth + 1)).call_frames) i
        ≡ some f
      → (f.target_pc ≤ program_end host executable) × (length f.caller_saved_registers ≡ 4)
  with_frame-frames s frame_pointer target_pc h inside i f below found =
      let pushed : CallFrame = pushed_frame s frame_pointer target_pc in
      elim (Bool-cases (i == s.vm.call_depth)) [
        | inl e ↦
            let same : i ≡ s.vm.call_depth = ground arith in
            let top =
              get_elem?-set_self s.call_frames s.vm.call_depth pushed
                (omega (arith, h.depth, h.frames_length)) in
            let is_pushed : pushed ≡ f = cc in
            subst
              (λ (g : CallFrame).
                (g.target_pc ≤ program_end host executable) × (length g.caller_saved_registers ≡ 4))
              is_pushed (inside, length-scratch s.reg h.reg_length)
        | inr e ↦
            let other : s.vm.call_depth ≢ i = λ same. absurd (ground arith) in
            h.frames i f (ground arith)
              (sym (get_elem?-set_ne s.call_frames s.vm.call_depth i pushed other) ∙ found)
      ]

  with_frame-IsSound :
      (s : Interpreter C) (frame_pointer target_pc : ℕ)
      → IsSound host executable s
      → target_pc ≤ program_end host executable
      → s.vm.call_depth + 1 < executable.config.max_call_depth
      → IsSound host executable (with_frame s frame_pointer target_pc (s.vm.call_depth + 1))
  with_frame-IsSound s frame_pointer target_pc h inside deeper = record {
    reg_length = h.reg_length;
    registers_length = h.registers_length;
    depth = deeper;
    frames_length = omega (
      arith,
      length-set s.call_frames s.vm.call_depth (pushed_frame s frame_pointer target_pc),
      h.frames_length,
    );
    frames = with_frame-frames s frame_pointer target_pc h inside;
    due = h.due;
    remaining = h.remaining;
  }

  -- What a call of a function keeps.
  pub record IsDeeper (before : ℕ) (s : Interpreter C) : Type 0 where
    pub sound : IsSound host executable s
    pub cheaper : allowance host executable s ≤ before

  num_frames_small :
      IsVerified executable → executable.config.stack_frame_size * num_frames executable < u64_end
  num_frames_small v =
      elim (Bool-cases
        (stack_frame_gaps executable.version && executable.config.enable_stack_frame_gaps)) [
          | inl e ↦ rw e (omega (arith, v.stack))
          | inr e ↦ rw e (omega (arith, v.stack))
        ]

  bump_frame-Safe :
      (s : Interpreter C)
      → IsVerified executable
      → IsSound host executable s
      → Safe (IsDeeper (allowance host executable s)) (bump_frame executable s)
  unfolding bump_frame
  bump_frame-Safe s v h = elim (Bool-cases (manual_stack_frame_bump executable.version)) [
    | inl e ↦ rw e (goes s (record { sound = h; cheaper = omega arith }))
    | inr e ↦ rw e (
        >>=-Safe (checked (executable.config.stack_frame_size * num_frames executable)) _
          (checked-Safe {P = λ _. Unit} _ (num_frames_small v) tt)
          (λ size _.
            >>=-Safe (read_reg s frame_ptr_reg) _
              (read_reg-Safe {P = λ _. Unit} s frame_ptr_reg h.reg_length (omega arith) (λ _ _. tt))
              (λ fp _. write_reg-Safe s frame_ptr_reg _ h.reg_length (omega arith) (record {
                sound = write_reg-IsSound s _ (length-set s.reg frame_ptr_reg _ ∙ h.reg_length) h;
                cheaper = omega arith;
              }))))
  ]

  pushed_frame-Safe :
      (s : Interpreter C) (frame_pointer target_pc call_depth : ℕ)
      → IsVerified executable
      → IsSound host executable s
      → target_pc ≤ program_end host executable
      → call_depth ≡ s.vm.call_depth + 1
      → Safe (IsDeeper (allowance host executable s)) (
          if call_depth == executable.config.max_call_depth
          then throw_error (with_frame s frame_pointer target_pc call_depth) call_depth_exceeded
          else bump_frame executable (with_frame s frame_pointer target_pc call_depth))
  pushed_frame-Safe s frame_pointer target_pc call_depth v h inside e =
      elim (Bool-cases (call_depth == executable.config.max_call_depth)) [
        | inl full ↦ rw full (throw_error-Safe _ call_depth_exceeded h.reg_length)
        | inr more ↦ rw more (
            rw e (
              bump_frame-Safe (with_frame s frame_pointer target_pc (s.vm.call_depth + 1)) v
                (with_frame-IsSound s frame_pointer target_pc h inside (ground (arith, h.depth)))))
      ]

  pub push_frame-Safe :
      (s : Interpreter C) (pc : ℕ)
      → IsVerified executable
      → IsSound host executable s
      → get_elem? s.reg pc_reg ≡ some pc
      → pc < program_end host executable
      → Safe (IsDeeper (allowance host executable s)) (push_frame executable s)
  unfolding push_frame
  push_frame-Safe s pc v h found inside =
      let (frame, e) =
        get_elem?-lt s.call_frames s.vm.call_depth (omega (arith, h.depth, h.frames_length)) in
      rw e (
        >>=-Safe (read_reg s frame_ptr_reg) _
          (read_reg-Safe {P = λ _. Unit} s frame_ptr_reg h.reg_length (omega arith) (λ _ _. tt))
          (λ fp _.
            >>=-Safe (read_reg s pc_reg) _
              (read_reg-Safe {P = λ p. p ≡ pc} s pc_reg h.reg_length (omega arith) (λ p e₀. cc))
              (λ p e₀.
                >>=-Safe (checked (p + 1)) _
                  (checked-Safe {P = λ t. t ≡ p + 1} _ (omega (arith, v.small)) refl)
                  (λ target e₁.
                    >>=-Safe (checked (s.vm.call_depth + 1)) _
                      (checked-Safe {P = λ t. t ≡ s.vm.call_depth + 1} _
                        (omega (arith, v.depth, h.depth)) refl)
                      (λ depth e₂. pushed_frame-Safe s fp target depth v h (omega arith) e₂)))))
