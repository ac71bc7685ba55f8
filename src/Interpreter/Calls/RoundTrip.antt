-- ===== src/Interpreter/Calls/RoundTrip.antt =====
-- A return takes back what the call put aside.
use aeneas2isabelle.Prelude.{
  ℕ, ◌+◌, ◌-◌, ◌*◌, ◌≤◌, ◌<◌, ◌≡◌, refl, true, false, Option, some, List, length, get_elem?,
  get_elem?-eq-none, get_elem?-set_self, set, arith, Bool-cases, Option-cases, inl, inr, ◌==◌, ◌∙◌,
  ltb, if◌then◌else◌,
}
use aeneas2isabelle.Ebpf.Opcodes.{frame_ptr_reg}
use aeneas2isabelle.Program.{manual_stack_frame_bump}
use aeneas2isabelle.Interpreter.Types.{
  call_depth_exceeded, Executable, Host, Interpreter, Outcome, running, stopped, panic, ◌>>=◌,
  index, checked,
}
use aeneas2isabelle.Interpreter.Frames.{
  pc_reg, read_reg, write_reg, scratch, restore_scratch, pushed_frame, with_frame, throw_error,
  bump_frame, push_frame, num_frames,
}
use aeneas2isabelle.Interpreter.Calls.{exit}
use aeneas2isabelle.Interpreter.Calls.Restored.{restored_caller, restored_callee}

pub >>=-eq-running :
    {C A B : Type 0} (m : Outcome C A) (f : A → Outcome C B) {b : B}
    → m >>= f ≡ running b
    → (a : A) × (m ≡ running a) × (f a ≡ running b)
>>=-eq-running (running a) f h = (a, refl, h)
>>=-eq-running (stopped s) f h = cc
>>=-eq-running panic f h = cc

index-lt : {A : Type 0} (xs : List A) (i : ℕ) {a : A} → get_elem? xs i ≡ some a → i < length xs
index-lt xs i h = elim (Bool-cases (ltb i (length xs))) [
  | inl e ↦ ground arith
  | inr e ↦ absurd (let none_at = get_elem?-eq-none xs i (ground arith) in cc)
]

module _ {C : Type 0} (executable : Executable) where
  index-eq-running : {A : Type 0} (o : Option A) {a : A} → index {C = C} o ≡ running a → o ≡ some a
  index-eq-running Option.none h = cc
  index-eq-running (some a) h = cc

  pub checked-eq-running : (n : ℕ) {m : ℕ} → checked {C = C} n ≡ running m → m ≡ n
  checked-eq-running n h = ground arith

  write_reg-eq-running :
      (s t : Interpreter C) (i v : ℕ)
      → write_reg s i v ≡ running t
      → t ≡ record s { reg = set s.reg i v }
  write_reg-eq-running s t i v h = elim (Bool-cases (ltb i (length s.reg))) [
    | inl e ↦ (let h' = rw e at h in cc)
    | inr e ↦ (let h' = rw e at h in cc)
  ]

  -- The frames and the depth are those of the call.
  bump_frame-eq-running :
      (s t : Interpreter C)
      → bump_frame executable s ≡ running t
      → (t.call_frames ≡ s.call_frames) × (t.vm.call_depth ≡ s.vm.call_depth)
  unfolding bump_frame
  bump_frame-eq-running s t h = elim (Bool-cases (manual_stack_frame_bump executable.version)) [
    | inl e ↦ (let h' = rw e at h in let same : s ≡ t = cc in (rw same refl, rw same refl))
    | inr e ↦
        let h' = rw e at h in
        let (size, _, h₁) =
          >>=-eq-running (checked (executable.config.stack_frame_size * num_frames executable)) _
            h' in
        let (fp, _, h₂) = >>=-eq-running (read_reg s frame_ptr_reg) _ h₁ in
        let same = write_reg-eq-running s t frame_ptr_reg _ h₂ in (rw same refl, rw same refl)
  ]

  -- What a call leaves: the frame of the caller, and one more level.
  record IsCall (s t : Interpreter C) (frame_pointer pc : ℕ) : Type 0 where
    frame_pointer_at : get_elem? s.reg frame_ptr_reg ≡ some frame_pointer
    pc_at : get_elem? s.reg pc_reg ≡ some pc
    call_frames :
        t.call_frames ≡ set s.call_frames s.vm.call_depth (pushed_frame s frame_pointer (pc + 1))
    depth : t.vm.call_depth ≡ s.vm.call_depth + 1
    fits : s.vm.call_depth < length s.call_frames

  throw_error-ne-running : (s t : Interpreter C) → throw_error s call_depth_exceeded ≡ running t → ⊥
  unfolding throw_error
  throw_error-ne-running s t h = elim (Option-cases (get_elem? s.reg pc_reg)) [
    | inl e ↦ (let h' = rw e at h in cc)
    | inr (pc, e) ↦ (let h' = rw e at h in cc)
  ]

  pushed-IsCall :
      (s t : Interpreter C) (frame_pointer pc target_pc call_depth : ℕ)
      → get_elem? s.reg frame_ptr_reg ≡ some frame_pointer
      → get_elem? s.reg pc_reg ≡ some pc
      → s.vm.call_depth < length s.call_frames
      → target_pc ≡ pc + 1
      → call_depth ≡ s.vm.call_depth + 1
      → (if call_depth == executable.config.max_call_depth
          then throw_error (with_frame s frame_pointer target_pc call_depth) call_depth_exceeded
          else bump_frame executable (with_frame s frame_pointer target_pc call_depth))
        ≡ running t
      → IsCall s t frame_pointer pc
  pushed-IsCall s t frame_pointer pc target_pc call_depth f p fits target depth h =
      elim (Bool-cases (call_depth == executable.config.max_call_depth)) [
        | inl e ↦
            absurd (
              throw_error-ne-running (with_frame s frame_pointer target_pc call_depth) t
                (rw e at h))
        | inr e ↦
            let (frames, same) =
              bump_frame-eq-running (with_frame s frame_pointer target_pc call_depth) t
                (rw e at h) in
            record {
              frame_pointer_at = f;
              pc_at = p;
              call_frames = frames ∙ rw target refl;
              depth = same ∙ depth;
              fits = fits;
            }
      ]

  push_frame-IsCall :
      (s t : Interpreter C)
      → push_frame executable s ≡ running t
      → (frame_pointer : ℕ) × (pc : ℕ) × IsCall s t frame_pointer pc
  unfolding push_frame
  push_frame-IsCall s t h =
      let (frame, e₀, h₀) = >>=-eq-running (index (get_elem? s.call_frames s.vm.call_depth)) _ h in
      let (fp, e₁, h₁) = >>=-eq-running (read_reg s frame_ptr_reg) _ h₀ in
      let (pc, e₂, h₂) = >>=-eq-running (read_reg s pc_reg) _ h₁ in
      let (target_pc, e₃, h₃) = >>=-eq-running (checked (pc + 1)) _ h₂ in
      let (call_depth, e₄, h₄) = >>=-eq-running (checked (s.vm.call_depth + 1)) _ h₃ in
      let target = checked-eq-running (pc + 1) e₃ in
      let depth = checked-eq-running (s.vm.call_depth + 1) e₄ in
      (
        fp,
        pc,
        pushed-IsCall s t fp pc target_pc call_depth (index-eq-running _ e₁) (index-eq-running _ e₂)
            (index-lt s.call_frames s.vm.call_depth (index-eq-running _ e₀)) target depth h₄,
      )

  -- A return takes back what the call put aside: if `push_frame` succeeds on a machine with
  -- twelve registers, then `exit` on any machine with twelve registers and the frames and the
  -- depth that the call left goes on behind the call, one level less deep, with the registers
  -- from r6 to r10 of the caller and the registers from r0 to r5 of the callee.
  pub push_frame-exit :
      (host : Host C) (s t callee : Interpreter C)
      → push_frame executable s ≡ running t
      → callee.call_frames ≡ t.call_frames
      → callee.vm.call_depth ≡ t.vm.call_depth
      → length s.reg ≡ 12
      → length callee.reg ≡ 12
      → (u : Interpreter C) × (pc : ℕ) × (exit host executable callee ≡ running (u, pc + 1))
        × (get_elem? s.reg pc_reg ≡ some pc)
        × (u.vm.call_depth ≡ s.vm.call_depth)
        × ((i : ℕ) → 6 ≤ i → i ≤ 10 → get_elem? u.reg i ≡ get_elem? s.reg i)
        × ((i : ℕ) → i < 6 → get_elem? u.reg i ≡ get_elem? callee.reg i)
  unfolding exit
  push_frame-exit host s t callee h frames depth many more =
      let (fp, pc, k) = push_frame-IsCall s t h in
      let deeper : callee.vm.call_depth ≡ s.vm.call_depth + 1 = depth ∙ k.depth in
      let inner : (callee.vm.call_depth == 0) ≡ false = ground arith in
      let enough : ltb callee.vm.call_depth 1 ≡ false = ground arith in
      let back : callee.vm.call_depth - 1 ≡ s.vm.call_depth = omega arith in
      let top : get_elem? callee.call_frames (callee.vm.call_depth - 1)
          ≡ some (pushed_frame s fp (pc + 1)) =
        rw (back, frames, k.call_frames)
          (get_elem?-set_self s.call_frames s.vm.call_depth _ k.fits) in
      let writable : ltb frame_ptr_reg (length callee.reg) ≡ true = ground arith in
      (
        record callee {
          vm = record callee.vm { call_depth = callee.vm.call_depth - 1 };
          reg = restore_scratch (scratch s.reg) (set callee.reg frame_ptr_reg fp);
        },
        pc,
        rw (inner, enough, top, writable) refl,
        k.pc_at,
        back,
        λ i. restored_caller s.reg callee.reg fp i many more k.frame_pointer_at,
        λ i. restored_callee (scratch s.reg) callee.reg fp i more,
      )
